-- ===== src/SmallVector/Reallocation.antt =====
-- A storage moves to a fresh block in src/common/small_vector.h: the elements are kept, and the old
-- block is deallocated.
use infini_rt.Base.{
  ℕ, suc, ◌≤◌, ◌<◌, ◌≡◌, refl, ap, sym, ◌∙◌, Bool, true, false, none, some, List, ◌==◌, length,
  take, arith, length-replicate, replicate, ==_ne, ==_refl, Bool-cases, ◌⊎◌, inl, inr,
}
use infini_rt.SmallVector.Memory.{Config, Memory, block_at, allocate, copy_into, put}
use infini_rt.SmallVector.Storage.{
  SmallVector, Storage, inline_storage, heap_data, reallocate, move_to, replace_with_heap, destroy,
}
use infini_rt.SmallVector.Valid.{owns, Sane, Holds, Frame, Shape, cells_of}
use infini_rt.SmallVector.Construct.{block_at-some, Copied, copy_into_lem, vector}
use infini_rt.SmallVector.Ending.{data_of-cells_of, length-cells_of, destroy-Frame, replace-destroy}

-- A storage moves to a block that holds its first `n` elements.
abbrev pub copied_to : {A : Type 0} → Config A → ℕ → ℕ → ℕ → List A → Memory A → Memory A
copied_to c p n new_capacity cells h =
    copy_into c.blank p n cells
      (put p (some (replicate new_capacity c.blank)) (record h { top = p }))

module _ {A : Type 0} (c : Config A) where
  -- A fresh block, the copy into it, and the end of a storage.
  pub record Moved (st : Storage A) (n new_capacity : ℕ) (cells : List A) (h : Memory A) (p : ℕ)
      (h1 : Memory A) : Type 0 where
    pub sane : Sane h1
    pub shaped : c.inline_capacity < new_capacity → Shape c (heap_data p) new_capacity h1
    pub contents : take n (block_at p h1) ≡ take n cells
    pub frame : Frame st h (heap_data p) h1
    pub unshared : owns st p ≡ false

  Shape-unowned :
      (st : Storage A) (capacity : ℕ) (h : Memory A)
      → Shape c st capacity h
      → owns st (suc h.top) ≡ false
  Shape-unowned (inline_storage cells) capacity h s = refl
  Shape-unowned (heap_data p) capacity h (_, _, old, _) = ==_ne p (suc h.top) (λ e. omega arith)

  pub Shape-same :
      (st : Storage A) (capacity : ℕ) (h h2 : Memory A)
      → Shape c st capacity h
      → h.top ≤ h2.top
      → ((q : ℕ) → owns st q ≡ true → h2.blocks q ≡ h.blocks q)
      → Shape c st capacity h2
  Shape-same (inline_storage cells) capacity h h2 s higher same = s
  Shape-same (heap_data p) capacity h h2 (big, pos, old, (cells, e, l)) higher same =
      (big, pos, omega arith, (cells, same p (==_refl p) ∙ e, l))

  pub Copied-Moved :
      (st : Storage A) (n m capacity new_capacity : ℕ) (cells : List A) (h h1 h2 : Memory A)
      → Sane h
      → Shape c st capacity h
      → Copied (suc h.top) n cells new_capacity h1 h2
      → ((q : ℕ) → (suc h.top == q) ≡ false → h2.blocks q ≡ h.blocks q)
      → h2.top ≡ suc h.top
      → h2.fault ≡ false
      → Moved st n new_capacity cells h (suc h.top) (destroy c (vector st m capacity) h2)
  Copied-Moved st n m capacity new_capacity cells h h1 h2 sane shape r elsewhere top2 fine =
      let p = suc h.top in
      let apart = Shape-unowned st capacity h shape in
      let sane2 : Sane h2 = record {
        defined = fine;
        unused =
            λ q above. elsewhere q (==_ne p q (λ e. omega arith)) ∙ sane.unused q (omega arith);
      } in
      let shape2 =
        Shape-same st capacity h h2 shape (omega arith)
          (λ q o. elsewhere q (==_ne p q (λ e. ground (arith, ap (owns st) e)))) in
      let (sane3, top3, blocks3) = destroy-Frame c st m capacity h2 sane2 shape2 in
      let here = blocks3 p ∙ rw apart r.here in
      record {
        sane = sane3;
        shaped = λ big. (big, omega arith, omega arith, (r.cells, here, r.sized));
        contents =
            ap (take n) (block_at-some p r.cells (destroy c (vector st m capacity) h2) here)
            ∙ r.copied;
        frame = λ q ne. blocks3 q ∙ rw (elsewhere q ne) refl;
        unshared = apart;
      }

  pub copied_to-Moved :
      (st : Storage A) (n m capacity new_capacity : ℕ) (cells : List A) (h : Memory A)
      → Sane h
      → Shape c st capacity h
      → n ≤ new_capacity
      → n ≤ length cells
      → let h2 = copied_to c (suc h.top) n new_capacity cells h in
        Moved st n new_capacity cells h (suc h.top) (destroy c (vector st m capacity) h2)
  copied_to-Moved st n m capacity new_capacity cells h sane shape a b =
      let p = suc h.top in
      let h1 = put p (some (replicate new_capacity c.blank)) (record h { top = p }) in
      let r =
        copy_into_lem c.blank p n new_capacity cells (replicate new_capacity c.blank) h1
          (ground arith) (length-replicate new_capacity c.blank) a b in
      Copied-Moved st n m capacity new_capacity cells h h1 (copy_into c.blank p n cells h1) sane
        shape r (λ q ne. r.elsewhere q ne ∙ rw ne refl) r.same_top (r.same_fault ∙ sane.defined)

  -- A fresh block, before anything is constructed in it.
  abbrev pub with_fresh : ℕ → Memory A → Memory A
  with_fresh n h = put (suc h.top) (some (replicate n c.blank)) (record h { top = suc h.top })

  pub fresh-Shape :
      (st : Storage A) (capacity n : ℕ) (h : Memory A)
      → Shape c st capacity h
      → Shape c st capacity (with_fresh n h) × (cells_of st (with_fresh n h) ≡ cells_of st h)
  fresh-Shape (inline_storage cells) capacity n h s = (s, refl)
  fresh-Shape (heap_data p) capacity n h (big, pos, old, (cells, e, l)) =
      let other : (suc h.top == p) ≡ false = ==_ne (suc h.top) p (λ e. omega arith) in
      let e1 : (with_fresh n h).blocks p ≡ some cells = rw other e in
      (
        (big, pos, omega arith, (cells, e1, l)),
        block_at-some p cells (with_fresh n h) e1 ∙ sym (block_at-some p cells h e),
      )

  -- Either the exception, and nothing changed, or the same list in the larger block.
  abbrev pub Kept : SmallVector A → Memory A → ℕ → List A → Bool × SmallVector A × Memory A → Type 0
  Kept v h new_capacity xs (done, v1, h1) =
      ((done ≡ false) × (v1 ≡ v) × (h1 ≡ h))
      ⊎ ((done ≡ true)
          × Sane h1
          × Holds c v1 h1 xs
          × Frame v.storage h v1.storage h1
          × (v1.capacity ≡ new_capacity)
          × (v1.size ≡ v.size))

  module _ (grants : ℕ → Memory A → Bool) where
    pub allocate-refused :
        (n : ℕ) (h : Memory A) → grants n h ≡ false → allocate c grants n h ≡ (none, h)
    unfolding allocate
    allocate-refused n h refused = rw refused refl

    pub allocate-granted :
        (n : ℕ) (h : Memory A)
        → grants n h ≡ true
        → allocate c grants n h ≡ (some (suc h.top), with_fresh n h)
    unfolding allocate
    allocate-granted n h granted = rw granted refl

    pub reallocate-refused :
        (n : ℕ) (v : SmallVector A) (h : Memory A)
        → grants n h ≡ false
        → reallocate c grants n v h ≡ (false, v, h)
    unfolding reallocate move_to
    reallocate-refused n v h refused = ap (move_to c n v) (allocate-refused n h refused)

    pub reallocate-granted :
        (st : Storage A) (n capacity m : ℕ) (h : Memory A)
        → Shape c st capacity h
        → grants m h ≡ true
        → reallocate c grants m (vector st n capacity) h ≡ (
          true,
          vector (heap_data (suc h.top)) n m,
          destroy c (vector st n capacity) (copied_to c (suc h.top) n m (cells_of st h) h),
        )
    unfolding reallocate move_to replace_with_heap
    reallocate-granted st n capacity m h shape granted =
        let (shape1, same) = fresh-Shape st capacity m h shape in
        ap (move_to c m (vector st n capacity)) (allocate-granted m h granted)
        ∙ rw (data_of-cells_of c st n capacity (with_fresh m h) shape1, same)
            (ap (λ (h2 : Memory A). (true, vector (heap_data (suc h.top)) n m, h2))
              (replace-destroy c st n capacity (suc h.top) n m
                (copied_to c (suc h.top) n m (cells_of st h) h) h shape))

    module _ (within : (n : ℕ) (h : Memory A) → grants n h ≡ true → n ≤ c.max_size) where
      pub reallocate-Kept :
          (st : Storage A) (n capacity m : ℕ) (h : Memory A) (xs : List A)
          → Sane h
          → Holds c (vector st n capacity) h xs
          → n ≤ m
          → c.inline_capacity < m
          → Kept (vector st n capacity) h m xs (reallocate c grants m (vector st n capacity) h)
      reallocate-Kept st n capacity m h xs sane holds a big = elim (Bool-cases (grants m h)) [
        | inr refused ↦
            rw (reallocate-refused m (vector st n capacity) h refused) (inl (refl, refl, refl))
        | inl granted ↦
            let moved =
              copied_to-Moved st n n capacity m (cells_of st h) h sane holds.shaped a
                (omega (arith, length-cells_of c st capacity h holds.shaped, holds.fits)) in
            rw (reallocate-granted st n capacity m h holds.shaped granted) (
              inr (
                refl,
                moved.sane,
                record {
                  fits = a;
                  bounded = within m h granted;
                  shaped = moved.shaped big;
                  contents = moved.contents ∙ holds.contents;
                },
                moved.frame,
                refl,
                refl,
              ))
      ]
