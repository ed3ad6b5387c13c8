-- ===== src/SmallVector/Ranged.antt =====
-- What the loop over an input range, its constructor and `assign` give, in src/common/small_vector.h.
use infini_rt.Base.{
  ℕ, ◌+◌, ◌≤◌, ◌<◌, ◌≡◌, ◌⊎◌, inl, inr, refl, sym, ◌∙◌, subst, Bool, true, false, List, [], ◌∷◌,
  ◌++◌, append_assoc, append-nil, map, u64_mod, arith, Bool-cases, length,
}
use infini_rt.SmallVector.Memory.{Config, Memory}
use infini_rt.SmallVector.Storage.{SmallVector, empty, destroy}
use infini_rt.SmallVector.Modify.{push_back}
use infini_rt.SmallVector.Initialize.{initialize_forward_range, initialize_input_range}
use infini_rt.SmallVector.Assign.{move_construct}
use infini_rt.SmallVector.Ranges.{move_replacement, construct_input_range}
use infini_rt.SmallVector.Valid.{owns, Sane, Holds, Frame}
use infini_rt.SmallVector.Ending.{destroy-Frame}
use infini_rt.SmallVector.Growth.{push_back-Changes}
use infini_rt.SmallVector.Copying.{empty-Holds}
use infini_rt.SmallVector.Copies.{move_construct_lem}
use infini_rt.SmallVector.Initialized.{initialize_forward_range-Changes}
use infini_rt.SmallVector.Fresh.{
  Fresh, Holds-same, Frame-trans, Fresh-trans, Holds-length, push_back-Fresh,
  initialize_forward_range-Fresh,
}

length-snoc : {A : Type 0} → (xs : List A) (x : A) → length (xs ++ (x ∷ [])) ≡ length xs + 1
length-snoc [] x = refl
length-snoc (y ∷ xs) x = omega (arith, length-snoc xs x)

module _ {A : Type 0} (c : Config A) where
  -- The vector holds a list in storage of its own, whether the call returned or threw.
  pub record Leaves (v : SmallVector A) (h : Memory A) (ys : List A) (v1 : SmallVector A)
      (h1 : Memory A) : Type 0 where
    pub sane : Sane h1
    pub holds : Holds c v1 h1 ys
    pub frame : Frame v.storage h v1.storage h1
    pub fresh : Fresh v.storage h v1.storage

  Leaves-trans :
      (v v1 v2 : SmallVector A) (h h1 h2 : Memory A) (ys zs : List A)
      → Leaves v h ys v1 h1
      → Leaves v1 h1 zs v2 h2
      → Leaves v h zs v2 h2
  Leaves-trans v v1 v2 h h1 h2 ys zs a b = record {
    sane = b.sane;
    holds = b.holds;
    frame = Frame-trans v.storage v1.storage v2.storage h h1 h2 a.frame a.fresh b.frame;
    fresh = Fresh-trans v.storage v1.storage v2.storage h h1 a.frame a.fresh b.fresh;
  }

  Leaves-same :
      (v : SmallVector A) (h : Memory A) (xs : List A) → Sane h → Holds c v h xs → Leaves v h xs v h
  Leaves-same v h xs sane holds = record {
    sane = sane;
    holds = holds;
    frame = λ q free. rw free refl;
    fresh = λ q mine. inl mine;
  }

  module _ (grants : ℕ → Memory A → Bool)
      (within : (n : ℕ) (h : Memory A) → grants n h ≡ true → n ≤ c.max_size)
      (small : c.max_size < u64_mod) where
    -- All of the range is appended, or a part of it before the exception.
    abbrev Appended :
        SmallVector A → Memory A → List A → List A → Bool × SmallVector A × Memory A → Type 0
    Appended v h xs range r =
        (ys : List A) × Leaves v h ys r.1 r.2 × (r.0 ≡ true → ys ≡ xs ++ range)

    initialize_input_range-Appended :
        {B : Type 0} (cast : B → A) (range : List B) (v : SmallVector A) (h : Memory A)
        (xs : List A)
        → Sane h
        → Holds c v h xs
        → v.size + length range ≤ c.max_size
        → Appended v h xs (map cast range) (initialize_input_range c grants cast range v h)
    unfolding initialize_input_range
    initialize_input_range-Appended cast [] v h xs sane holds room =
        (xs, Leaves-same v h xs sane holds, λ e. sym (append-nil xs))
    initialize_input_range-Appended cast (x' ∷ range) v h xs sane holds room =
        let x = cast x' in
        let r = push_back c grants x v h in
        elim (push_back-Changes c grants within small v h xs sane holds x (omega arith)) [
          | inl thrown ↦ rw thrown (xs, Leaves-same v h xs sane holds, λ e. absurd (ground arith))
          | inr (done, sane1, holds1, frame1) ↦
              let step : Leaves v h (xs ++ (x ∷ [])) r.1 r.2 = record {
                sane = sane1;
                holds = holds1;
                frame = frame1;
                fresh = push_back-Fresh c grants x v h xs sane holds;
              } in
              let (ys, rest, whole) =
                initialize_input_range-Appended cast range r.1 r.2 (xs ++ (x ∷ [])) sane1 holds1 (
                  omega (
                    arith,
                    Holds-length c r.1 r.2 (xs ++ (x ∷ [])) holds1,
                    Holds-length c v h xs holds,
                    length-snoc xs x,
                  )) in
              rw done (
                ys,
                Leaves-trans v r.1 _ h r.2 _ (xs ++ (x ∷ [])) ys step rest,
                λ e. whole e ∙ append_assoc xs (x ∷ []) (map cast range),
              )
        ]

    -- The new vector holds the range in storage of its own, or the constructor threw and every
    -- block is as it was.
    abbrev pub Constructed : Memory A → List A → Bool × SmallVector A × Memory A → Type 0
    Constructed h range r =
        ((r.0 ≡ false) × Sane r.2 × ((q : ℕ) → r.2.blocks q ≡ h.blocks q))
        ⊎ ((r.0 ≡ true) × Leaves (empty c) h range r.1 r.2)

    module _ (minimal : c.inline_capacity ≤ c.max_size) where
      -- The destructor of a vector without a block.
      pub destroy-unowned :
          (v : SmallVector A) (h : Memory A) (xs : List A)
          → Sane h
          → Holds c v h xs
          → ((q : ℕ) → owns v.storage q ≡ false)
          → Sane (destroy c v h)
            × ((destroy c v h).top ≡ h.top)
            × ((q : ℕ) → (destroy c v h).blocks q ≡ h.blocks q)
      destroy-unowned v h xs sane holds none_owned =
          let (sane1, top1, blocks1) =
            destroy-Frame c v.storage v.size v.capacity h sane holds.shaped in
          (sane1, top1, λ q. blocks1 q ∙ rw (none_owned q) refl)

      move_replacement-Constructed :
          (h : Memory A) (range : List A) (r : Bool × SmallVector A × Memory A)
          → Appended (empty c) h [] range r
          → Constructed h range (move_replacement c r)
      move_replacement-Constructed h range (false, v, h1) (ys, l, whole) =
          let (sane1, top1, blocks1) =
            destroy-Frame c v.storage v.size v.capacity h1 l.sane l.holds.shaped in
          inl (
            refl,
            sane1,
            λ q. blocks1 q ∙ elim (Bool-cases (owns v.storage q)) [
              | inr other ↦ rw other (l.frame q other)
              | inl mine ↦ rw mine (elim (l.fresh q mine) [
                | inl old ↦ absurd (ground arith)
                | inr unused ↦ sym unused
              ])
            ],
          )
      move_replacement-Constructed h range (true, v, h1) (ys, l, whole) =
          let m = move_construct c v h1 in
          let (sane2, holds2, gone2, blocks2, owner2, none2) =
            move_construct_lem c small minimal v.storage v.size v.capacity h1 ys l.sane l.holds in
          let (sane3, top3, blocks3) = destroy-unowned m.1 m.2 [] sane2 gone2 none2 in
          inr (
            refl,
            record {
              sane = sane3;
              holds =
                  subst (Holds c m.0 (destroy c m.1 m.2)) (whole refl)
                    (Holds-same c m.0 m.2 (destroy c m.1 m.2) ys holds2 sane3 (λ q o. blocks3 q));
              frame = λ q free. blocks3 q ∙ blocks2 q ∙ l.frame q (sym (owner2 q) ∙ free);
              fresh = λ q mine. l.fresh q (sym (owner2 q) ∙ mine);
            },
          )

      pub construct_input_range-Constructed :
          {B : Type 0} (cast : B → A) (range : List B) (h : Memory A)
          → Sane h
          → length range ≤ c.max_size
          → Constructed h (map cast range) (construct_input_range c grants cast range h)
      unfolding construct_input_range
      construct_input_range-Constructed cast range h sane room =
          move_replacement-Constructed h (map cast range)
            (initialize_input_range c grants cast range (empty c) h)
            (initialize_input_range-Appended cast range (empty c) h [] sane
              (empty-Holds c h minimal) (omega arith))

      pub initialize_forward_range-Constructed :
          {B : Type 0} (cast : B → A) (range : List B) (h : Memory A)
          → Sane h
          → Constructed h
              (map cast range)
              (initialize_forward_range c grants cast range (empty c) h)
      initialize_forward_range-Constructed cast range h sane =
          elim (initialize_forward_range-Changes c grants within minimal cast range h sane) [
            | inl thrown ↦ rw thrown (inl (refl, sane, λ q. refl))
            | inr (done, sane1, holds1, frame1) ↦ inr (
              done,
              record {
                sane = sane1;
                holds = holds1;
                frame = frame1;
                fresh = initialize_forward_range-Fresh c grants cast range h sane;
              },
            )
          ]
