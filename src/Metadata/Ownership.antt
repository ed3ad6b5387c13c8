-- ===== src/Metadata/Ownership.antt =====
-- Moves and releases of `ShapeStridesStorage` (src/common/shape_strides_storage.h).
use infini_rt.Base.{
  ℕ, ◌≤◌, ◌≡◌, refl, subst, if◌then◌else◌, leb, ◌&&◌, Bool, true, false, List, [], length, take,
  replicate, length-take, length-replicate, arith,
}
use infini_rt.Metadata.Storage.{
  copy_range, ShapeStrides, Storage, inline_storage, heap_storage, Freed, shape_view, strides_view,
  move_construct, release_storage,
}
use infini_rt.Metadata.Valid.{Active, take-copy_range}

nothing : (b : Bool) → (if◌then◌else◌ {A = List Freed} b [] []) ≡ []
nothing true = refl
nothing false = refl

module _ (inline_capacity blank : ℕ) where
  copied :
      (n : ℕ) (xs : List ℕ)
      → n ≤ inline_capacity
      → length xs ≡ inline_capacity
      → take n (copy_range (take n xs) (replicate inline_capacity blank)) ≡ take n xs
  copied n xs small l =
      let size : length (take n xs) ≡ n = omega (arith, length-take n xs) in
      subst
        (λ (k : ℕ). take k (copy_range (take n xs) (replicate inline_capacity blank)) ≡ take n xs)
        size
        (take-copy_range (take n xs) (replicate inline_capacity blank)
          (omega (arith, size, length-replicate inline_capacity blank)))

  -- A move from an object whose sizes tell the active member of its storage keeps both lists and
  -- the blocks that the destructor gives back. The object that was moved from has empty lists and
  -- gives back nothing.
  pub move_construct_views :
      (st : Storage) (n m : ℕ)
      → Active inline_capacity blank st n m
      → let s : ShapeStrides = record { storage = st; shape_size = n; strides_size = m } in
        let r = move_construct inline_capacity blank s in
        (shape_view inline_capacity blank r.0 ≡ shape_view inline_capacity blank s)
        × (strides_view inline_capacity blank r.0 ≡ strides_view inline_capacity blank s)
        × (shape_view inline_capacity blank r.1 ≡ [])
        × (strides_view inline_capacity blank r.1 ≡ [])
        × (release_storage inline_capacity blank r.0 ≡ release_storage inline_capacity blank s)
        × (release_storage inline_capacity blank r.1 ≡ [])
  unfolding move_construct release_storage
  move_construct_views (inline_storage shape strides) n m (a, b, l, k) =
      let small : (leb n inline_capacity && leb m inline_capacity) ≡ true = ground arith in
      rw (small, move_construct)
        (
          rw small (copied n shape a l),
          rw small (copied m strides b k),
          refl,
          refl,
          rw small refl,
          nothing (leb 0 inline_capacity && leb 0 inline_capacity),
        )
  move_construct_views (heap_storage h) n m big =
      rw (big, move_construct)
        (
          rw big refl,
          rw big refl,
          refl,
          refl,
          rw big refl,
          nothing (leb 0 inline_capacity && leb 0 inline_capacity),
        )
