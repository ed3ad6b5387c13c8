-- ===== src/Metadata/Contents.antt =====
-- What the initializers of src/common/shape_strides_storage.h put into the object, and where.
use infini_rt.Base.{
  ℕ, ◌+◌, ◌*◌, ◌^◌, ◌≤◌, ◌<◌, ◌≡◌, ◌⊎◌, inl, inr, refl, ap, ltb, leb, ◌&&◌, false, Option, none,
  some, List, length, replicate, take, length-take, length-replicate, arith, Bool-cases,
  Option-cases,
}
use infini_rt.Metadata.Layout.{narrow_size, combined_bytes-fits, strides_place-fits}
use infini_rt.Metadata.Storage.{
  aborts, initialize, combine, initialize_ranges, write_ranges, release_storage,
}
use infini_rt.Metadata.Valid.{Made, take-copy_range, length-copy_range}

pub narrow_size-fits : (n : ℕ) → n < 2 ^ 32 → narrow_size n ≡ some n
unfolding narrow_size
narrow_size-fits n h = ground arith

narrow_size-large : (n : ℕ) → 2 ^ 32 ≤ n → narrow_size n ≡ none
unfolding narrow_size
narrow_size-large n h = ground arith

module _ (inline_capacity blank : ℕ) where
  -- What a writer does with arrays that are long enough.
  abbrev pub Writes : ℕ → ℕ → List ℕ → List ℕ → (List ℕ → List ℕ → List ℕ × List ℕ) → Type 0
  Writes n m shape strides writer =
      (c d : List ℕ)
      → n ≤ length c
      → m ≤ length d
      → (take n (writer c d).0 ≡ shape)
        × (take m (writer c d).1 ≡ strides)
        × (length (writer c d).0 ≡ length c)
        × (length (writer c d).1 ≡ length d)

  module _ (new : ℕ → Option ℕ) (n m : ℕ) (writer : List ℕ → List ℕ → List ℕ × List ℕ)
      (shape strides : List ℕ) (a : n < 2 ^ 32) (b : m < 2 ^ 32)
      (writes : Writes n m shape strides writer) where
    lengths : (length shape ≡ n) × (length strides ≡ m)
    lengths =
        let (shape_is, strides_is, shape_length, strides_length) =
          writes (replicate n blank) (replicate m blank) (omega (arith, length-replicate n blank))
            (omega (arith, length-replicate m blank)) in
        (
          omega (
            arith,
            ap length shape_is,
            length-take n (writer (replicate n blank) (replicate m blank)).0,
            shape_length,
            length-replicate n blank,
          ),
          omega (
            arith,
            ap length strides_is,
            length-take m (writer (replicate n blank) (replicate m blank)).1,
            strides_length,
            length-replicate m blank,
          ),
        )

    combine-Made :
        (leb n inline_capacity && leb m inline_capacity) ≡ false
        → Made inline_capacity blank new shape strides
            (combine inline_capacity blank new n m writer)
    unfolding combine release_storage
    combine-Made big = elim (Option-cases (new (n * 8 + 7 + m * 8))) [
      | inl refused ↦ inr (
        rw (combined_bytes-fits n m a b, combine) (rw (refused, combine) refl),
        (
          n * 8 + 7 + m * 8,
          ground (arith, lengths.0, lengths.1),
          rw (lengths.0, lengths.1) (combined_bytes-fits n m a b),
          refused,
        ),
      )
      | inr (base, e) ↦
          let (shape_is, strides_is, shape_length, strides_length) =
            writes (replicate n blank) (replicate m blank) (omega (arith, length-replicate n blank))
              (omega (arith, length-replicate m blank)) in
          rw (combined_bytes-fits n m a b, combine)
            (rw e (
              rw (strides_place-fits n m base) (
                inl (
                  _,
                  refl,
                  rw big shape_is,
                  rw big strides_is,
                  record {
                    active = big;
                    covers = (
                      omega (arith, shape_length, length-replicate n blank),
                      omega (arith, strides_length, length-replicate m blank),
                    );
                    small_shape = a;
                    small_strides = b;
                  },
                  inr (big, (_, base, combined_bytes-fits n m a b, e, rw big refl)),
                ))))
    ]

    pub initialize-Made :
        Made inline_capacity blank new shape strides
          (initialize inline_capacity blank new n m writer)
    unfolding initialize release_storage
    initialize-Made =
        rw (narrow_size-fits n a, narrow_size-fits m b, initialize)
          (elim (Bool-cases (leb n inline_capacity && leb m inline_capacity)) [
            | inr big ↦ rw big (combine-Made big)
            | inl small ↦
                let cells = replicate inline_capacity blank in
                let (shape_is, strides_is, shape_length, strides_length) =
                  writes cells cells (ground (arith, length-replicate inline_capacity blank))
                    (ground (arith, length-replicate inline_capacity blank)) in
                rw small (
                  inl (
                    _,
                    refl,
                    rw small shape_is,
                    rw small strides_is,
                    record {
                      active = (
                        ground arith,
                        ground arith,
                        omega (arith, shape_length, length-replicate inline_capacity blank),
                        omega (arith, strides_length, length-replicate inline_capacity blank),
                      );
                      covers = tt;
                      small_shape = a;
                      small_strides = b;
                    },
                    inl (small, rw small refl),
                  ))
          ])

  pub initialize-aborts :
      (new : ℕ → Option ℕ) (n m : ℕ) (writer : List ℕ → List ℕ → List ℕ × List ℕ)
      → (2 ^ 32 ≤ n) ⊎ (2 ^ 32 ≤ m)
      → initialize inline_capacity blank new n m writer ≡ aborts
  unfolding initialize narrow_size
  initialize-aborts new n m writer large = ground arith

  pub initialize_ranges-Made :
      (new : ℕ → Option ℕ) (shape strides : List ℕ)
      → length shape < 2 ^ 32
      → length strides < 2 ^ 32
      → Made inline_capacity blank new shape strides
          (initialize_ranges inline_capacity blank new shape strides)
  unfolding initialize_ranges
  initialize_ranges-Made new shape strides a b =
      initialize-Made new (length shape) (length strides)
        (write_ranges inline_capacity blank shape strides) shape strides a b
        (λ c d h k. (
          take-copy_range shape c h,
          take-copy_range strides d k,
          length-copy_range shape c h,
          length-copy_range strides d k,
        ))

  -- A longer range aborts.
  pub initialize_ranges_lem :
      (new : ℕ → Option ℕ) (shape strides : List ℕ)
      → let r = initialize_ranges inline_capacity blank new shape strides in
        ((length shape < 2 ^ 32)
          × (length strides < 2 ^ 32)
          × Made inline_capacity blank new shape strides r)
        ⊎ (((2 ^ 32 ≤ length shape) ⊎ (2 ^ 32 ≤ length strides)) × (r ≡ aborts))
  unfolding initialize_ranges
  initialize_ranges_lem new shape strides =
      let n = length shape in
      let m = length strides in
      elim (Bool-cases (ltb n (2 ^ 32) && ltb m (2 ^ 32))) [
        | inl fits ↦
            let a : n < 2 ^ 32 = ground arith in
            let b : m < 2 ^ 32 = ground arith in
            inl (a, b, initialize_ranges-Made new shape strides a b)
        | inr large ↦
            let which : (2 ^ 32 ≤ n) ⊎ (2 ^ 32 ≤ m) = ground arith in
            inr (
              which,
              initialize-aborts new n m (write_ranges inline_capacity blank shape strides) which,
            )
      ]
