-- ===== src/SmallVector/Renewed.antt =====
-- Which block the copies and the constructor from a range in src/common/small_vector.h end with, and
-- when they throw.
use infini_rt.Base.{
  ℕ, zero, suc, ◌≤◌, ◌<◌, ◌≡◌, ◌⊎◌, inl, inr, refl, ap, ltb, ltb-false, lt→ltb, ltb→lt, leb, Bool,
  true, false, none, List, map, [], ◌∷◌, length, arith, u64_mod, Bool-cases, get_or,
}
use infini_rt.SmallVector.Memory.{Config, Memory, require}
use infini_rt.SmallVector.Storage.{
  SmallVector, Storage, inline_storage, heap_data, empty, replace_with_heap,
}
use infini_rt.SmallVector.Assign.{construct_range, copy_construct, copy_assign}
use infini_rt.SmallVector.Initialize.{initialize_forward_range, take_over}
use infini_rt.SmallVector.Valid.{owns, Sane, Holds, Frame}
use infini_rt.SmallVector.Construct.{vector}
use infini_rt.SmallVector.Ending.{data_of-cells_of}
use infini_rt.SmallVector.Reallocation.{
  allocate-refused, allocate-granted, reallocate-refused, reallocate-granted,
}
use infini_rt.SmallVector.Extension.{Changes}
use infini_rt.SmallVector.Copying.{empty-Holds}
use infini_rt.SmallVector.Copies.{copy_construct-Changes}
use infini_rt.SmallVector.Assigned.{assign_inline-Inlined}
use infini_rt.SmallVector.Replaced.{copy_assign-Changes}
use infini_rt.SmallVector.Initialized.{initialize_forward_range-Changes}
use infini_rt.SmallVector.Fresh.{construct-owner}

module _ {A : Type 0} (c : Config A) (grants : ℕ → Memory A → Bool) where
  -- Every block that is owned was not in use before.
  abbrev pub New : Memory A → Storage A → Type 0
  New h st = (q : ℕ) → owns st q ≡ true → h.blocks q ≡ none

  -- Room for `n` elements is not inline, and the allocator refuses it.
  abbrev pub Refused : ℕ → Memory A → Type 0
  Refused n h = (c.inline_capacity < n) × (grants n h ≡ false)

  -- The call threw, since the allocator refused `n` elements, and changed nothing; or the vector holds another
  -- list now, inline or in a block that was not in use before.
  abbrev pub Renews :
      ℕ → SmallVector A → Memory A → List A → Bool × SmallVector A × Memory A → Type 0
  Renews n v h ys r =
      ((r ≡ (false, v, h)) × Refused n h)
      ⊎ ((r.0 ≡ true)
          × Sane r.2
          × Holds c r.1 r.2 ys
          × Frame v.storage h r.1.storage r.2
          × New h r.1.storage)

  abbrev Renewed : ℕ → Memory A → Bool × SmallVector A × Memory A → Type 0
  Renewed n h r = (New h r.1.storage × (r.0 ≡ true)) ⊎ (Refused n h × (r.0 ≡ false))

  Changes-Renews :
      (n : ℕ) (v : SmallVector A) (h : Memory A) (ys : List A) (r : Bool × SmallVector A × Memory A)
      → Changes c v h ys r
      → Renewed n h r
      → Renews n v h ys r
  Changes-Renews n v h ys r (inl thrown) (inl (new, e)) =
      absurd (ground (arith, ap (λ (x : Bool × SmallVector A × Memory A). x.0) thrown))
  Changes-Renews n v h ys r (inl thrown) (inr (refusal, e)) = inl (thrown, refusal)
  Changes-Renews n v h ys r (inr (done, a, b, f)) (inl (new, e)) = inr (done, a, b, f, new)
  Changes-Renews n v h ys r (inr (done, a, b, f)) (inr (refusal, e)) = absurd (ground arith)

  construct_range-owner :
      (n : ℕ) (source : List A) (v : SmallVector A) (h : Memory A) (q : ℕ)
      → owns (construct_range c n source v h).0.storage q ≡ true
      → owns v.storage q ≡ true
  unfolding construct_range
  construct_range-owner zero source v h q mine = mine
  construct_range-owner (suc n) source v h q mine =
      construct-owner c v v.size (get_or source v.size c.blank)
        (require (ltb v.size (length source)) h) q (construct_range-owner n source _ _ q mine)

  copy_construct-Renewed :
      c.inline_capacity ≤ c.max_size
      → (other : SmallVector A) (h : Memory A) → Sane h
      → Renewed other.capacity h (copy_construct c grants other h)
  unfolding copy_construct
  copy_construct-Renewed minimal other h sane =
      elim (Bool-cases (ltb c.inline_capacity other.capacity)) [
        | inr inlined ↦ rw inlined (
            inl (
              λ q mine.
                  absurd (ground (arith, construct_range-owner other.size _ (empty c) h q mine)),
              refl,
            ))
        | inl heap ↦ rw heap (elim (Bool-cases (grants other.capacity h)) [
          | inr refused ↦
              rw (reallocate-refused c grants other.capacity (empty c) h refused)
                (inr ((ltb→lt c.inline_capacity other.capacity heap, refused), refl))
          | inl granted ↦
              rw
                (reallocate-granted c grants (empty c).storage 0 c.inline_capacity other.capacity h
                  (empty-Holds c h minimal).shaped granted)
                (inl (
                  λ q mine. sane.unused q (
                      ground (
                        arith,
                        construct_range-owner other.size _
                            (vector (heap_data (suc h.top)) 0 other.capacity) _ q mine,
                      )),
                  refl,
                ))
        ])
      ]

  -- If the allocator grants at most max_size elements, which is below 2 ^ 64 and not below the
  -- inline capacity, the copy of a vector that holds a list either throws, only if its capacity
  -- is not inline and the allocator refuses as many elements, and leaves the memory as it was; or
  -- it holds the same list, inline or in a block that was not in use before, so that the two
  -- vectors share none, with no other block changed and nothing undefined.
  pub copy_construct-Renews :
      ((n : ℕ) (h : Memory A) → grants n h ≡ true → n ≤ c.max_size)
      → c.max_size < u64_mod
      → c.inline_capacity ≤ c.max_size
      → (st : Storage A) (n capacity : ℕ) (h : Memory A) (xs : List A) → Sane h
      → Holds c (vector st n capacity) h xs
      → Renews capacity (empty c) h xs (copy_construct c grants (vector st n capacity) h)
  copy_construct-Renews within small minimal st n capacity h xs sane holds =
      Changes-Renews capacity (empty c) h xs (copy_construct c grants (vector st n capacity) h)
        (copy_construct-Changes c grants within small minimal st n capacity h xs sane holds)
        (copy_construct-Renewed minimal (vector st n capacity) h sane)

  copy_assign-Renewed :
      c.inline_capacity ≤ c.max_size
      → (st so : Storage A) (m k n capacity : ℕ) (h : Memory A) (xs0 xs : List A) → Sane h
      → Holds c (vector st m k) h xs0
      → Holds c (vector so n capacity) h xs
      → Renewed capacity h (copy_assign c grants (vector st m k) (vector so n capacity) h)
  unfolding copy_assign replace_with_heap
  copy_assign-Renewed minimal st (inline_storage cells) m k n capacity h xs0 xs sane holds0 holds =
      let (e, l) = holds.shaped in
      let (_, _, _, _, free1) =
        assign_inline-Inlined c st n m k cells h minimal sane holds0.shaped
          (omega (arith, holds.fits)) (omega (arith, holds.fits)) in
      rw
        (
          ltb-false c.inline_capacity capacity (omega arith),
          data_of-cells_of c (inline_storage cells) n capacity h holds.shaped,
        )
        (inl (λ q mine. absurd (ground (arith, free1 q)), refl))
  copy_assign-Renewed minimal st (heap_data p) m k n capacity h xs0 xs sane holds0 holds =
      elim (Bool-cases (grants capacity h)) [
        | inr refused ↦
            rw
              (
                lt→ltb c.inline_capacity capacity holds.shaped.0,
                allocate-refused c grants capacity h refused,
              )
              (inr ((holds.shaped.0, refused), refl))
        | inl granted ↦
            rw
              (
                lt→ltb c.inline_capacity capacity holds.shaped.0,
                allocate-granted c grants capacity h granted,
              )
              (inl (λ q mine. sane.unused q (ground arith), refl))
      ]

  -- If the allocator grants at most max_size elements, which is not below the inline capacity, a
  -- copy assignment between two vectors that hold lists either throws, only if the capacity of
  -- the source is not inline and the allocator refuses as many elements, and changes nothing; or
  -- it gives the target the list of the source, inline or in a block that was not in use before,
  -- so that the two vectors share none. The old block of the target is deallocated, no other
  -- block is changed, and nothing undefined happens.
  pub copy_assign-Renews :
      ((n : ℕ) (h : Memory A) → grants n h ≡ true → n ≤ c.max_size)
      → c.inline_capacity ≤ c.max_size
      → (st so : Storage A) (m k n capacity : ℕ) (h : Memory A) (xs0 xs : List A) → Sane h
      → Holds c (vector st m k) h xs0
      → Holds c (vector so n capacity) h xs
      → Renews capacity
          (vector st m k)
          h
          xs
          (copy_assign c grants (vector st m k) (vector so n capacity) h)
  copy_assign-Renews within minimal st so m k n capacity h xs0 xs sane holds0 holds =
      Changes-Renews capacity (vector st m k) h xs _
        (copy_assign-Changes c grants within minimal st so m k n capacity h xs0 xs sane holds0
          holds)
        (copy_assign-Renewed minimal st so m k n capacity h xs0 xs sane holds0 holds)

  module _ {B : Type 0} (cast : B → A) where
    initialize_forward_range-Renewed :
        (range : List B) (h : Memory A)
        → Sane h
        → Renewed (length range) h (initialize_forward_range c grants cast range (empty c) h)
    unfolding initialize_forward_range take_over replace_with_heap
    initialize_forward_range-Renewed [] h sane = inl (λ q mine. absurd (ground arith), refl)
    initialize_forward_range-Renewed (x ∷ xs) h sane =
        let n = length (x ∷ xs) in
        elim (Bool-cases (leb n c.inline_capacity)) [
          | inl small ↦ rw small (inl (λ q mine. absurd (ground arith), refl))
          | inr large ↦ rw large (elim (Bool-cases (grants n h)) [
            | inr refused ↦
                rw (allocate-refused c grants n h refused) (inr ((ground arith, refused), refl))
            | inl granted ↦
                rw (allocate-granted c grants n h granted)
                  (inl (λ q mine. sane.unused q (ground arith), refl))
          ])
        ]

    -- If the allocator grants at most max_size elements, which is not below the inline capacity,
    -- the constructor from a forward range either throws, only if the range is longer than the
    -- inline capacity and the allocator refuses its length, and leaves the memory as it was; or
    -- it holds the elements of the range after their static_cast, inline or in a block that was
    -- not in use before, with no other block changed and nothing undefined.
    pub initialize_forward_range-Renews :
        ((n : ℕ) (h : Memory A) → grants n h ≡ true → n ≤ c.max_size)
        → c.inline_capacity ≤ c.max_size
        → (range : List B) (h : Memory A) → Sane h
        → Renews
            (length range)
            (empty c)
            h
            (map cast range)
            (initialize_forward_range c grants cast range (empty c) h)
    initialize_forward_range-Renews within minimal range h sane =
        Changes-Renews (length range) (empty c) h (map cast range) _
          (initialize_forward_range-Changes c grants within minimal cast range h sane)
          (initialize_forward_range-Renewed range h sane)
