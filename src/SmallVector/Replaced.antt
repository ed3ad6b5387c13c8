-- ===== src/SmallVector/Replaced.antt =====
-- The copy assignment of `SmallVector` in src/common/small_vector.h.
use infini_rt.Base.{
  ℕ, suc, ◌≤◌, ◌≡◌, refl, ap, subst, ◌∙◌, Bool, true, List, length, arith, ltb-false, lt→ltb,
  Bool-cases, inl, inr,
}
use infini_rt.SmallVector.Memory.{Config, Memory, block_at}
use infini_rt.SmallVector.Storage.{Storage, inline_storage, heap_data, destroy}
use infini_rt.SmallVector.Assign.{assign_inline, copy_assign}
use infini_rt.SmallVector.Valid.{Sane, Holds, Shape}
use infini_rt.SmallVector.Construct.{vector, block_at-some}
use infini_rt.SmallVector.Ending.{data_of-cells_of}
use infini_rt.SmallVector.Reallocation.{
  copied_to, copied_to-Moved, allocate-refused, allocate-granted, fresh-Shape, with_fresh,
}
use infini_rt.SmallVector.Extension.{Changes}
use infini_rt.SmallVector.Assigned.{assign_inline-Inlined, replace-vector}

module _ {A : Type 0} (c : Config A) where
  copy_assign-granted :
      (grants : ℕ → Memory A → Bool) (st : Storage A) (m k p n capacity : ℕ) (h : Memory A)
      → Shape c st k h
      → Shape c (heap_data p) capacity h
      → grants capacity h ≡ true
      → copy_assign c grants (vector st m k) (vector (heap_data p) n capacity) h ≡ (
        true,
        vector (heap_data (suc h.top)) n capacity,
        destroy c (vector st m k) (copied_to c (suc h.top) n capacity (block_at p h) h),
      )
  unfolding copy_assign
  copy_assign-granted grants st m k p n capacity h shape0 shape granted =
      let (shape1, same) = fresh-Shape c (heap_data p) capacity capacity h shape in
      rw
        (
          lt→ltb c.inline_capacity capacity shape.0,
          allocate-granted c grants capacity h granted,
          data_of-cells_of c (heap_data p) n capacity (with_fresh c capacity h) shape1,
          same,
          replace-vector c st m k (suc h.top) n capacity
              (copied_to c (suc h.top) n capacity (block_at p h) h) h shape0,
        )
        refl

  -- The memory around the assignment, and the list of the target.
  pub copy_assign-Changes :
      (grants : ℕ → Memory A → Bool)
      → ((n : ℕ) (h : Memory A) → grants n h ≡ true → n ≤ c.max_size)
      → c.inline_capacity ≤ c.max_size
      → (st so : Storage A) (m k n capacity : ℕ) (h : Memory A) (xs0 xs : List A) → Sane h
      → Holds c (vector st m k) h xs0
      → Holds c (vector so n capacity) h xs
      → Changes c
          (vector st m k)
          h
          xs
          (copy_assign c grants (vector st m k) (vector so n capacity) h)
  unfolding copy_assign
  copy_assign-Changes grants within minimal st (inline_storage cells) m k n capacity h xs0 xs sane
        holds0 holds =
      let (e, l) = holds.shaped in
      let (sane1, holds1, _, blocks1, free1) =
        assign_inline-Inlined c st n m k cells h minimal sane holds0.shaped
          (omega (arith, holds.fits)) (omega (arith, holds.fits)) in
      rw
        (
          ltb-false c.inline_capacity capacity (omega arith),
          data_of-cells_of c (inline_storage cells) n capacity h holds.shaped,
        )
        (inr (
          refl,
          sane1,
          subst
              (λ (ys : List A).
                Holds c (assign_inline c cells n (vector st m k) h).0
                  (assign_inline c cells n (vector st m k) h).1 ys)
              holds.contents holds1,
          λ q ne. blocks1 q,
        ))
  copy_assign-Changes grants within minimal st (heap_data p) m k n capacity h xs0 xs sane holds0
        holds =
      let (big, _, _, (cells, there, l)) = holds.shaped in
      elim (Bool-cases (grants capacity h)) [
        | inr refused ↦ inl (
            rw (lt→ltb c.inline_capacity capacity big, allocate-refused c grants capacity h refused)
              refl)
        | inl granted ↦
            let moved =
              copied_to-Moved c st n m k capacity (block_at p h) h sane holds0.shaped holds.fits
                (omega (arith, holds.fits, ap length (block_at-some p cells h there))) in
            rw (copy_assign-granted grants st m k p n capacity h holds0.shaped holds.shaped granted)
              (inr (
                refl,
                moved.sane,
                record {
                  fits = holds.fits;
                  bounded = holds.bounded;
                  shaped = moved.shaped big;
                  contents = moved.contents ∙ holds.contents;
                },
                moved.frame,
              ))
      ]
