-- ===== src/SmallVector/Copies.antt =====
-- What copies and moves of a vector do, in src/common/small_vector.h.
use infini_rt.Base.{
  ℕ, suc, ◌≤◌, ◌<◌, ◌≡◌, refl, ap, sym, subst, inl, inr, ◌∙◌, Bool, true, false, List, [], length,
  take, replicate, arith, u64_mod, Bool-cases, ltb-false, lt→ltb, ==_ne, some,
}
use infini_rt.SmallVector.Memory.{Config, Memory}
use infini_rt.SmallVector.Storage.{
  SmallVector, Storage, inline_storage, heap_data, empty, data_of, destroy,
}
use infini_rt.SmallVector.Assign.{construct_range, copy_construct, construct_copy, move_construct}
use infini_rt.SmallVector.Valid.{owns, Sane, Holds, Frame, cells_of}
use infini_rt.SmallVector.Construct.{vector, block_at-some}
use infini_rt.SmallVector.Ending.{data_of-cells_of}
use infini_rt.SmallVector.Reallocation.{
  copied_to, copied_to-Moved, reallocate-refused, reallocate-granted,
}
use infini_rt.SmallVector.Extension.{Changes, Extended, Kept-Changes}
use infini_rt.SmallVector.Copying.{empty-Holds, construct_range-Extended}

module _ {A : Type 0} (c : Config A) where
  -- A copy of the elements into the storage of a fresh vector.
  construct_copy-Changes :
      (v v1 : SmallVector A) (h h1 : Memory A) (n : ℕ) (cells : List A)
      → c.max_size < u64_mod
      → Frame v.storage h v1.storage h1
      → Sane h1
      → Holds c v1 h1 []
      → v1.size ≡ 0
      → n ≤ v1.capacity
      → n ≤ length cells
      → let r = construct_range c n cells v1 h1 in Changes c v h (take n cells) (true, r.0, r.1)
  construct_copy-Changes v v1 h h1 n cells small frame sane holds none_yet room enough =
      let holds0 = subst (λ (k : ℕ). Holds c v1 h1 (take k cells)) (sym none_yet) holds in
      let r =
        construct_range-Extended c n cells v1 h1 small sane holds0 (omega arith) (omega arith) in
      Kept-Changes c v v1 (construct_range c n cells v1 h1).0 h h1
        (construct_range c n cells v1 h1).1 n (take n cells) frame
        (subst
          (λ (k : ℕ).
            Extended c v1 h1 n (take k cells) (construct_range c n cells v1 h1).0
              (construct_range c n cells v1 h1).1)
          (omega (arith, none_yet)) r)

  data_of-heap :
      (p n capacity : ℕ) (cells : List A) (h : Memory A)
      → c.inline_capacity < capacity
      → h.blocks p ≡ some cells
      → data_of c (vector (heap_data p) n capacity) h ≡ cells
  unfolding data_of
  data_of-heap p n capacity cells h big e =
      rw (lt→ltb c.inline_capacity capacity big) (block_at-some p cells h e)

  -- The memory around the copy, and its list.
  pub copy_construct-Changes :
      (grants : ℕ → Memory A → Bool)
      → ((n : ℕ) (h : Memory A) → grants n h ≡ true → n ≤ c.max_size)
      → c.max_size < u64_mod
      → c.inline_capacity ≤ c.max_size
      → (st : Storage A) (n capacity : ℕ) (h : Memory A) (xs : List A) → Sane h
      → Holds c (vector st n capacity) h xs
      → Changes c (empty c) h xs (copy_construct c grants (vector st n capacity) h)
  unfolding copy_construct
  copy_construct-Changes grants within small minimal (inline_storage cells) n capacity h xs sane
        holds =
      let (e, l) = holds.shaped in
      rw
        (
          ltb-false c.inline_capacity capacity (omega arith),
          data_of-cells_of c (inline_storage cells) n capacity h holds.shaped,
        )
        (subst
          (λ (ys : List A). Changes c (empty c) h ys (
            true,
            (construct_range c n cells (empty c) h).0,
            (construct_range c n cells (empty c) h).1,
          ))
          holds.contents
          (construct_copy-Changes (empty c) (empty c) h h n cells small (λ q ne. refl) sane
            (empty-Holds c h minimal) refl (omega (arith, holds.fits)) (omega (arith, holds.fits))))
  copy_construct-Changes grants within small minimal (heap_data p) n capacity h xs sane holds =
      let (big, pos, old, (cells, e, l)) = holds.shaped in
      let source = vector (heap_data p) n capacity in
      elim (Bool-cases (grants capacity h)) [
        | inr refused ↦ inl (
            rw (lt→ltb c.inline_capacity capacity big) (
              ap (construct_copy c source)
                (reallocate-refused c grants capacity (empty c) h refused)))
        | inl granted ↦
            let shape0 = (empty-Holds c h minimal).shaped in
            let fresh = inline_storage (replicate c.inline_capacity c.blank) in
            let h2 =
              destroy c (empty c) (copied_to c (suc h.top) 0 capacity (cells_of fresh h) h) in
            let moved =
              copied_to-Moved c fresh 0 0 c.inline_capacity capacity (cells_of fresh h) h sane
                shape0 (omega arith) (omega arith) in
            let kept : h2.blocks p ≡ some cells =
              moved.frame p (==_ne (suc h.top) p (λ q. omega arith)) ∙ e in
            let there = data_of-heap p n capacity cells h2 big kept in
            let v1 = vector (heap_data (suc h.top)) 0 capacity in
            let list = ap (take n) (sym (block_at-some p cells h e)) ∙ holds.contents in
            let copied =
              construct_copy-Changes (empty c) v1 h h2 n cells small moved.frame moved.sane
                (record {
                  fits = omega arith;
                  bounded = holds.bounded;
                  shaped = moved.shaped big;
                  contents = refl;
                })
                refl holds.fits (omega (arith, l, holds.fits)) in
            rw (lt→ltb c.inline_capacity capacity big) (
              subst
                (λ (r : Bool × SmallVector A × Memory A).
                  Changes c (empty c) h xs (construct_copy c source r))
                (sym
                  (reallocate-granted c grants fresh 0 c.inline_capacity capacity h shape0 granted))
                (subst
                  (λ (d : List A).
                    Changes c (empty c) h xs
                      (true, (construct_range c n d v1 h2).0, (construct_range c n d v1 h2).1))
                  (sym there)
                  (subst
                    (λ (ys : List A). Changes c (empty c) h ys (
                      true,
                      (construct_range c n cells v1 h2).0,
                      (construct_range c n cells v1 h2).1,
                    ))
                    list copied)))
      ]

  -- With max_size below 2 ^ 64 and not below the inline capacity, a move from a vector that holds
  -- a list gives a vector that holds the list and owns the block that the source owned, and
  -- leaves an empty vector that owns none. No block is allocated, changed or deallocated.
  pub move_construct_lem :
      c.max_size < u64_mod
      → c.inline_capacity ≤ c.max_size
      → (st : Storage A) (n capacity : ℕ) (h : Memory A) (xs : List A) → Sane h
      → Holds c (vector st n capacity) h xs
      → let r = move_construct c (vector st n capacity) h in
        Sane r.2
        × Holds c r.0 r.2 xs
        × Holds c r.1 r.2 []
        × ((q : ℕ) → r.2.blocks q ≡ h.blocks q)
        × ((q : ℕ) → owns r.0.storage q ≡ owns st q)
        × ((q : ℕ) → owns r.1.storage q ≡ false)
  unfolding move_construct
  move_construct_lem small minimal (inline_storage cells) n capacity h xs sane holds =
      let (e, l) = holds.shaped in
      let r =
        construct_range-Extended c n cells (empty c) h small sane (empty-Holds c h minimal)
          (omega (arith, holds.fits)) (omega (arith, holds.fits)) in
      rw
        (
          ltb-false c.inline_capacity capacity (omega arith),
          data_of-cells_of c (inline_storage cells) n capacity h holds.shaped,
        )
        (
          r.sane,
          subst
              (λ (ys : List A).
                Holds c (construct_range c n cells (empty c) h).0
                  (construct_range c n cells (empty c) h).1 ys)
              (ap (λ (k : ℕ). take k cells) (omega arith) ∙ holds.contents) r.holds,
          record { fits = omega arith; bounded = holds.bounded; shaped = (e, l); contents = refl },
          λ q. r.others q refl,
          r.same_owner,
          λ q. refl,
        )
  move_construct_lem small minimal (heap_data p) n capacity h xs sane holds =
      let (big, _, _, _) = holds.shaped in
      rw (lt→ltb c.inline_capacity capacity big)
        (sane, holds, empty-Holds c h minimal, λ q. refl, λ q. refl, λ q. refl)
