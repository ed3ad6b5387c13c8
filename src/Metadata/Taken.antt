-- ===== src/Metadata/Taken.antt =====
-- The vectors that `ShapeStridesStorage` (src/common/shape_strides_storage.h) is made of, and their blocks.
use infini_rt.Base.{
  ℕ, ◌^◌, ◌<◌, ◌≡◌, ◌⊎◌, inl, inr, refl, ltb, leb, ◌&&◌, ◌||◌, Option, none, some, List, [], ◌++◌,
  take, ap, ◌∷◌, length, replicate, length-replicate, false, true, arith, Bool-cases, Option-cases,
  subst,
}
use infini_rt.Tensor.Elements.{row_major, fill_default_strides-row_major}
use infini_rt.Metadata.Storage.{
  ShapeStrides, Outcome, built, throws, OwnedVector, initialize_owned, initialize_mixed, is_inline,
  initialize_mixed_strides, initialize_moved_shape, filled_strides, copy_of, activate_split, Freed,
  vector_blocks, release_storage, shape_view, strides_view,
}
use infini_rt.Metadata.Valid.{IsValid, Made}
use infini_rt.Metadata.Contents.{narrow_size-fits, initialize_ranges-Made}
use infini_rt.Metadata.Defaults.{initialize_default_strides-Made, length-fill_default_strides}

take_all : (xs : List ℕ) → take (length xs) xs ≡ xs
take_all [] = refl
take_all (x ∷ xs) = ap (◌∷◌ x) (take_all xs)

module _ (inline_capacity blank : ℕ) (new : ℕ → Option ℕ) where
  -- The object has both blocks, and its destructor gives them back with the capacities that they
  -- have. The vectors, which are on the heap before, are empty and without a block afterwards.
  pub record TakesOver (xs ys : List ℕ) (shape strides : OwnedVector) (s : ShapeStrides)
      (shape' strides' : OwnedVector) : Type 0 where
    pub same_shape : shape_view inline_capacity blank s ≡ xs
    pub same_strides : strides_view inline_capacity blank s ≡ ys
    pub valid : IsValid inline_capacity blank s
    pub not_inline : is_inline inline_capacity blank s ≡ false
    pub shape_on_heap : inline_capacity < shape.capacity
    pub strides_on_heap : inline_capacity < strides.capacity
    pub gives_back :
        release_storage inline_capacity blank s
        ≡ vector_blocks inline_capacity blank shape ++ vector_blocks inline_capacity blank strides
    pub shape_gone : (shape'.values ≡ []) × (vector_blocks inline_capacity blank shape' ≡ [])
    pub strides_gone : (strides'.values ≡ []) × (vector_blocks inline_capacity blank strides' ≡ [])

  -- An object with these two lists has storage from `operator new`, or that threw, and the vectors
  -- are as they were; or it took over their blocks.
  abbrev pub Accounts :
      List ℕ → List ℕ → OwnedVector → OwnedVector → Outcome × OwnedVector × OwnedVector → Type 0
  Accounts xs ys shape strides (r, shape', strides') =
      (Made inline_capacity blank new xs ys r × (shape' ≡ shape) × (strides' ≡ strides))
      ⊎ ((s : ShapeStrides) × (r ≡ built s) × TakesOver xs ys shape strides s shape' strides')

  -- From two moved vectors of fewer than 2 ^ 32 elements each, an object with their lists is made
  -- whose sizes tell the active member of its storage, or operator new refused the block for it
  -- and threw. Either the vectors are as they were, and the object, if there is one, is inline
  -- without a block or has the one block that operator new made for its sizes; or both vectors
  -- were on the heap, the destructor of the object gives back just their two blocks with their
  -- capacities, and the vectors are empty and give back nothing.
  pub initialize_owned-Accounts :
      (shape strides : OwnedVector)
      → length shape.values < 2 ^ 32
      → length strides.values < 2 ^ 32
      → Accounts shape.values strides.values shape strides
          (initialize_owned inline_capacity blank new shape strides)
  unfolding initialize_owned activate_split release_storage
  initialize_owned-Accounts shape strides a b =
      let n = length shape.values in
      let m = length strides.values in
      let copied =
        initialize_ranges-Made inline_capacity blank new shape.values strides.values a b in
      elim (Bool-cases (leb n inline_capacity && leb m inline_capacity)) [
        | inl small ↦ rw small (inl (copied, refl, refl))
        | inr big ↦
            elim (Bool-cases
              (ltb inline_capacity shape.capacity && ltb inline_capacity strides.capacity)) [
                | inr one_inline ↦ rw big (rw one_inline (inl (copied, refl, refl)))
                | inl both ↦
                    let shape_heap : ltb inline_capacity shape.capacity ≡ true = ground arith in
                    let strides_heap : ltb inline_capacity strides.capacity ≡ true = ground arith in
                    let none_left : ltb inline_capacity inline_capacity ≡ false = ground arith in
                    rw big (
                      rw both (
                        rw (narrow_size-fits n a, narrow_size-fits m b)
                          (inr (
                            _,
                            refl,
                            record {
                              same_shape = rw big (take_all shape.values);
                              same_strides = rw big (take_all strides.values);
                              valid = record {
                                active = big;
                                covers = (omega arith, omega arith);
                                small_shape = a;
                                small_strides = b;
                              };
                              not_inline = big;
                              shape_on_heap = ground arith;
                              strides_on_heap = ground arith;
                              gives_back = rw (big, shape_heap, strides_heap) refl;
                              shape_gone = (refl, rw none_left refl);
                              strides_gone = (refl, rw none_left refl);
                            },
                          ))))
              ]
      ]

  -- A vector is moved, and a local one stands where `fresh` says. The object is made without the
  -- local vector; or the local vector gets a block, and what is left of it at its end is given back;
  -- or its allocation throws.
  abbrev pub LocalAccounts :
      List ℕ
      → List ℕ
      → Option ℕ
      → (ℕ → OwnedVector → Outcome × OwnedVector → Type 0)
      → OwnedVector
      → Outcome × OwnedVector × List Freed
      → Type 0
  LocalAccounts xs ys fresh with_local moved (r, moved', freed) =
      (Made inline_capacity blank new xs ys r × (moved' ≡ moved) × (freed ≡ []))
      ⊎ ((address : ℕ) × (left : OwnedVector) × (fresh ≡ some address)
          × (freed ≡ vector_blocks inline_capacity blank left)
          × with_local address left (r, moved'))
      ⊎ ((fresh ≡ none) × (r ≡ throws) × (moved' ≡ moved) × (freed ≡ []))

  initialize_mixed-Accounts :
      (fresh : Option ℕ) (shape strides : OwnedVector)
      → length shape.values < 2 ^ 32
      → length strides.values < 2 ^ 32
      → LocalAccounts shape.values strides.values fresh
          (λ address left r.
            Accounts shape.values strides.values shape
              (copy_of inline_capacity blank strides address)
              (r.0, r.1, left))
          shape
          (initialize_mixed inline_capacity blank new fresh shape strides)
  unfolding initialize_mixed
  initialize_mixed-Accounts fresh shape strides a b =
      let copied =
        initialize_ranges-Made inline_capacity blank new shape.values strides.values a b in
      elim (Bool-cases (
        ltb inline_capacity (length shape.values)
        && ltb inline_capacity (length strides.values)
        && ltb inline_capacity shape.capacity)) [
          | inr other ↦ rw other (inl (copied, refl, refl))
          | inl moved ↦ rw moved (elim (Option-cases fresh) [
            | inl refused ↦ rw refused (inr (inr (refl, refl, refl, refl)))
            | inr (address, e) ↦ rw e (
                inr (
                  inl (
                    address,
                    _,
                    refl,
                    refl,
                    initialize_owned-Accounts shape (copy_of inline_capacity blank strides address)
                        a b,
                  )))
          ])
        ]

  initialize_mixed_strides-Accounts :
      (fresh : Option ℕ) (shape strides : OwnedVector)
      → length shape.values < 2 ^ 32
      → length strides.values < 2 ^ 32
      → LocalAccounts shape.values strides.values fresh
          (λ address left r.
            Accounts shape.values strides.values
              (copy_of inline_capacity blank shape address)
              strides
              (r.0, left, r.1))
          strides
          (initialize_mixed_strides inline_capacity blank new fresh shape strides)
  unfolding initialize_mixed_strides
  initialize_mixed_strides-Accounts fresh shape strides a b =
      let copied =
        initialize_ranges-Made inline_capacity blank new shape.values strides.values a b in
      elim (Bool-cases (
        ltb inline_capacity (length shape.values)
        && ltb inline_capacity (length strides.values)
        && ltb inline_capacity strides.capacity)) [
          | inr other ↦ rw other (inl (copied, refl, refl))
          | inl moved ↦ rw moved (elim (Option-cases fresh) [
            | inl refused ↦ rw refused (inr (inr (refl, refl, refl, refl)))
            | inr (address, e) ↦ rw e (
                inr (
                  inl (
                    address,
                    _,
                    refl,
                    refl,
                    initialize_owned-Accounts (copy_of inline_capacity blank shape address) strides
                        a b,
                  )))
          ])
        ]

  filled_strides-row_major :
      (shape : OwnedVector) (address : ℕ)
      → (filled_strides inline_capacity blank shape address).values ≡ row_major shape.values
  filled_strides-row_major shape address =
      fill_default_strides-row_major shape.values (replicate (length shape.values) 0)
        (length-replicate {A = ℕ} (length shape.values) 0)

  pub initialize_moved_shape-Accounts :
      (fresh : Option ℕ) (shape : OwnedVector)
      → length shape.values < 2 ^ 32
      → LocalAccounts shape.values
          (row_major shape.values)
          fresh
          (λ address left r.
            Accounts shape.values
              (row_major shape.values)
              shape
              (filled_strides inline_capacity blank shape address)
              (r.0, r.1, left))
          shape
          (initialize_moved_shape inline_capacity blank new fresh shape)
  unfolding initialize_moved_shape
  initialize_moved_shape-Accounts fresh shape a =
      let n = length shape.values in
      elim (Bool-cases (leb n inline_capacity || leb shape.capacity inline_capacity)) [
        | inl copied ↦ rw copied (
            inl (
              initialize_default_strides-Made inline_capacity blank new shape.values a,
              refl,
              refl,
            ))
        | inr owned ↦ rw owned (elim (Option-cases fresh) [
          | inl refused ↦ rw refused (inr (inr (refl, refl, refl, refl)))
          | inr (address, e) ↦
              let strides = filled_strides inline_capacity blank shape address in
              let sized : length strides.values < 2 ^ 32 = omega (
                arith,
                length-fill_default_strides n shape.values (replicate n 0),
                length-replicate {A = ℕ} n 0,
              ) in
              rw e (
                inr (
                  inl (
                    address,
                    _,
                    refl,
                    refl,
                    subst
                        (λ (ys : List ℕ).
                          Accounts shape.values ys shape strides
                            (initialize_owned inline_capacity blank new shape strides))
                        (filled_strides-row_major shape address)
                        (initialize_owned-Accounts shape strides a sized),
                  )))
        ])
      ]
