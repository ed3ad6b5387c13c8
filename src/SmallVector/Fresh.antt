-- ===== src/SmallVector/Fresh.antt =====
-- The blocks that a vector of src/common/small_vector.h comes to own.
use infini_rt.Base.{
  ℕ, suc, ◌≡◌, ◌⊎◌, inl, inr, refl, sym, ◌∙◌, ap, Bool, true, false, none, some, Option, List, [],
  ◌∷◌, ◌==◌, ltb, leb, arith, Bool-cases, ==_iff, ==_refl, take, length, length-take,
}
use infini_rt.SmallVector.Memory.{Config, Memory}
use infini_rt.SmallVector.Storage.{
  SmallVector, Storage, inline_storage, heap_data, construct, grown, empty, replace_with_heap,
}
use infini_rt.SmallVector.Modify.{push_back, grow_for_append}
use infini_rt.SmallVector.Initialize.{initialize_forward_range, take_over}
use infini_rt.SmallVector.Valid.{owns, Sane, Holds, Frame, Shape, cells_of}
use infini_rt.SmallVector.Construct.{vector}
use infini_rt.SmallVector.Ending.{length-cells_of}
use infini_rt.SmallVector.Reallocation.{
  allocate-refused, allocate-granted, reallocate-refused, reallocate-granted,
}

module _ {A : Type 0} where
  abbrev pub Fresh : Storage A → Memory A → Storage A → Type 0
  Fresh old h new = (q : ℕ) → owns new q ≡ true → (owns old q ≡ true) ⊎ (h.blocks q ≡ none)

  pub Frame-trans :
      (a b d : Storage A) (h h1 h2 : Memory A)
      → Frame a h b h1
      → Fresh a h b
      → Frame b h1 d h2
      → Frame a h d h2
  Frame-trans a b d h h1 h2 f fresh g q free = elim (Bool-cases (owns b q)) [
    | inr other ↦ g q free ∙ rw other (f q other)
    | inl mine ↦
        g q free
        ∙ rw mine (elim (fresh q mine) [
          | inl old ↦ rw old refl
          | inr unused ↦ elim (Bool-cases (owns a q)) [
            | inl old ↦ rw old refl
            | inr new ↦ rw (new, unused) refl
          ]
        ])
  ]

  pub Fresh-trans :
      (a b d : Storage A) (h h1 : Memory A)
      → Frame a h b h1
      → Fresh a h b
      → Fresh b h1 d
      → Fresh a h d
  Fresh-trans a b d h h1 f fresh g q mine = elim (g q mine) [
    | inl mid ↦ fresh q mid
    | inr gone ↦ elim (Bool-cases (owns b q)) [
      | inl mid ↦ fresh q mid
      | inr other ↦ ground (arith, f q other)
    ]
  ]

module _ {A : Type 0} (c : Config A) where
  pub Holds-length :
      (v : SmallVector A) (h : Memory A) (xs : List A) → Holds c v h xs → length xs ≡ v.size
  Holds-length v h xs r =
      ap length (sym r.contents)
      ∙ omega (
        arith,
        length-take v.size (cells_of v.storage h),
        length-cells_of c v.storage v.capacity h r.shaped,
        r.fits,
      )

  cells_of-same :
      (st : Storage A) (h h1 : Memory A)
      → ((q : ℕ) → owns st q ≡ true → h1.blocks q ≡ h.blocks q)
      → cells_of st h1 ≡ cells_of st h
  cells_of-same (inline_storage cells) h h1 same = refl
  cells_of-same (heap_data p) h h1 same =
      ap (λ (b : Option (List A)). elim b [ none ↦ [] | some cells ↦ cells ]) (same p (==_refl p))

  Shape-Sane :
      (st : Storage A) (capacity : ℕ) (h h1 : Memory A)
      → Shape c st capacity h
      → Sane h1
      → ((q : ℕ) → owns st q ≡ true → h1.blocks q ≡ h.blocks q)
      → Shape c st capacity h1
  Shape-Sane (inline_storage cells) capacity h h1 shape sane same = shape
  Shape-Sane (heap_data p) capacity h h1 (big, pos, old, (cells, e, l)) sane same =
      let there = same p (==_refl p) ∙ e in
      (
        big,
        pos,
        elim (Bool-cases (ltb h1.top p)) [
          | inl above ↦ absurd (ground (arith, sane.unused p))
          | inr below ↦ ground arith
        ],
        (cells, there, l),
      )

  -- A vector does not see what happens to blocks of others.
  pub Holds-same :
      (v : SmallVector A) (h h1 : Memory A) (xs : List A)
      → Holds c v h xs
      → Sane h1
      → ((q : ℕ) → owns v.storage q ≡ true → h1.blocks q ≡ h.blocks q)
      → Holds c v h1 xs
  Holds-same v h h1 xs r sane same = record {
    fits = r.fits;
    bounded = r.bounded;
    shaped = Shape-Sane v.storage v.capacity h h1 r.shaped sane same;
    contents = ap (take v.size) (cells_of-same v.storage h h1 same) ∙ r.contents;
  }

  -- An address without a block is not owned.
  pub unowned :
      (st : Storage A) (capacity : ℕ) (h : Memory A) (q : ℕ)
      → Shape c st capacity h
      → h.blocks q ≡ none
      → owns st q ≡ false
  unowned (inline_storage cells) capacity h q shape missing = refl
  unowned (heap_data p) capacity h q (big, pos, old, (cells, e, l)) missing =
      elim (Bool-cases (p == q)) [
        | inr other ↦ other
        | inl same ↦ absurd (ground (arith, (==_iff p q).0 same))
      ]

  pub construct-owner :
      (v : SmallVector A) (i : ℕ) (x : A) (h : Memory A) (q : ℕ)
      → owns (construct c v i x h).0.storage q ≡ true
      → owns v.storage q ≡ true
  unfolding construct
  construct-owner v i x h q = elim (Bool-cases (ltb c.inline_capacity v.capacity)) [
    | inl heap ↦ rw heap (λ e. e)
    | inr inlined ↦ rw inlined (λ e. absurd (ground arith))
  ]

  module _ (grants : ℕ → Memory A → Bool) where
    pub push_back-Fresh :
        (x : A) (v : SmallVector A) (h : Memory A) (xs : List A)
        → Sane h
        → Holds c v h xs
        → Fresh v.storage h (push_back c grants x v h).1.storage
    unfolding push_back grow_for_append
    push_back-Fresh x v h xs sane holds q = elim (Bool-cases (v.size == v.capacity)) [
      | inr room ↦ rw room (λ mine. inl (construct-owner v v.size x h q mine))
      | inl full ↦
          let m = grown c v.capacity in
          rw full (elim (Bool-cases (grants m h)) [
            | inr refused ↦ rw (reallocate-refused c grants m v h refused) (λ mine. inl mine)
            | inl granted ↦
                rw
                  (reallocate-granted c grants v.storage v.size v.capacity m h holds.shaped granted)
                  (λ mine.
                    let here =
                      construct-owner (vector (heap_data (suc h.top)) v.size m) v.size x _ q mine in
                    inr (sane.unused q (ground (arith, here))))
          ])
    ]

    pub initialize_forward_range-Fresh :
        {B : Type 0} (cast : B → A) (range : List B) (h : Memory A)
        → Sane h
        → Fresh
            (empty c).storage
            h
            (initialize_forward_range c grants cast range (empty c) h).1.storage
    unfolding initialize_forward_range take_over replace_with_heap
    initialize_forward_range-Fresh cast [] h sane = λ q mine. absurd (ground arith)
    initialize_forward_range-Fresh cast (x ∷ xs) h sane = λ q.
        let n = length (x ∷ xs) in
        elim (Bool-cases (leb n c.inline_capacity)) [
          | inl small ↦ rw small (λ mine. absurd (ground arith))
          | inr large ↦ rw large (elim (Bool-cases (grants n h)) [
            | inr refused ↦
                rw (allocate-refused c grants n h refused) (λ mine. absurd (ground arith))
            | inl granted ↦
                rw (allocate-granted c grants n h granted)
                  (λ mine. inr (sane.unused q (ground (arith, mine))))
          ])
        ]
