-- ===== src/Metadata/Valid.antt =====
-- When an object of src/common/shape_strides_storage.h is well formed, and which block it has.
use infini_rt.Base.{
  ℕ, ◌≤◌, ◌<◌, ◌≡◌, ◌^◌, ◌⊎◌, suc, refl, ap, leb, ◌&&◌, true, false, Option, none, some, List, [],
  ◌∷◌, length, take, length-take, arith,
}
use infini_rt.Metadata.Layout.{combined_bytes}
use infini_rt.Metadata.Storage.{
  ShapeStrides, Storage, inline_storage, heap_storage, Outcome, built, throws, raw, is_inline,
  shape_view, strides_view, release_storage, copy_range,
}

pub take-copy_range :
    (xs cells : List ℕ) → length xs ≤ length cells → take (length xs) (copy_range xs cells) ≡ xs
take-copy_range [] cells h = refl
take-copy_range (x ∷ xs) [] h = absurd (omega arith)
take-copy_range (x ∷ xs) (y ∷ cells) h = ap (◌∷◌ x) (take-copy_range xs cells (omega arith))

pub length-copy_range :
    (xs cells : List ℕ) → length xs ≤ length cells → length (copy_range xs cells) ≡ length cells
length-copy_range [] cells h = refl
length-copy_range (x ∷ xs) [] h = absurd (omega arith)
length-copy_range (x ∷ xs) (y ∷ cells) h = ap suc (length-copy_range xs cells (omega arith))

module _ (inline_capacity blank : ℕ) where
  -- The sizes tell which member of the union is active.
  abbrev pub Active : Storage → ℕ → ℕ → Type 0
  Active (inline_storage shape strides) n m =
      (n ≤ inline_capacity)
      × (m ≤ inline_capacity)
      × (length shape ≡ inline_capacity)
      × (length strides ≡ inline_capacity)
  Active (heap_storage h) n m = ((leb n inline_capacity && leb m inline_capacity) ≡ false)

  -- The arrays are long enough for their sizes.
  abbrev Covers : Storage → ℕ → ℕ → Type 0
  Covers (inline_storage shape strides) n m = Unit
  Covers (heap_storage h) n m = (n ≤ length h.shape) × (m ≤ length h.strides)

  pub record IsValid (s : ShapeStrides) : Type 0 where
    pub active : Active s.storage s.shape_size s.strides_size
    pub covers : Covers s.storage s.shape_size s.strides_size
    pub small_shape : s.shape_size < 2 ^ 32
    pub small_strides : s.strides_size < 2 ^ 32

  array_lengths :
      (st : Storage) (n m : ℕ)
      → Active st n m
      → Covers st n m
      → let s : ShapeStrides = record { storage = st; shape_size = n; strides_size = m } in
        (length (shape_view inline_capacity blank s) ≡ n)
        × (length (strides_view inline_capacity blank s) ≡ m)
  array_lengths (inline_storage shape strides) n m (a, b, l, k) c =
      let small : (leb n inline_capacity && leb m inline_capacity) ≡ true = ground arith in
      rw small (omega (arith, length-take n shape), omega (arith, length-take m strides))
  array_lengths (heap_storage h) n m big (l, k) =
      rw big (omega (arith, length-take n h.shape), omega (arith, length-take m h.strides))

  pub length-views :
      (s : ShapeStrides)
      → IsValid s
      → (length (shape_view inline_capacity blank s) ≡ s.shape_size)
        × (length (strides_view inline_capacity blank s) ≡ s.strides_size)
  length-views s v = array_lengths s.storage s.shape_size s.strides_size v.active v.covers

  -- An object that is inline has no block; another one has the block that was made for its sizes.
  abbrev pub Owns : (ℕ → Option ℕ) → ShapeStrides → Type 0
  Owns new s =
      ((is_inline inline_capacity blank s ≡ true) × (release_storage inline_capacity blank s ≡ []))
      ⊎ ((is_inline inline_capacity blank s ≡ false)
          × ((bytes base : ℕ) × (combined_bytes s.shape_size s.strides_size ≡ some bytes)
              × (new bytes ≡ some base)
              × (release_storage inline_capacity blank s ≡ raw base ∷ [])))

  -- Arrays of these sizes are not inline, and `operator new` refuses the block for them.
  abbrev pub Refuses : (ℕ → Option ℕ) → ℕ → ℕ → Type 0
  Refuses new n m =
      (bytes : ℕ) × ((inline_capacity < n) ⊎ (inline_capacity < m))
      × (combined_bytes n m ≡ some bytes)
      × (new bytes ≡ none)

  -- A well-formed object with these two lists and storage of its own, or the exception of
  -- `operator new`.
  abbrev pub Made : (ℕ → Option ℕ) → List ℕ → List ℕ → Outcome → Type 0
  Made new shape strides r =
      ((s : ShapeStrides) × (r ≡ built s)
        × (shape_view inline_capacity blank s ≡ shape)
        × (strides_view inline_capacity blank s ≡ strides)
        × IsValid s
        × Owns new s)
      ⊎ ((r ≡ throws) × Refuses new (length shape) (length strides))
