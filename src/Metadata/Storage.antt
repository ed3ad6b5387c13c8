-- ===== src/Metadata/Storage.antt =====
-- The state and the initializers of `ShapeStridesStorage` (src/common/shape_strides_storage.h).
-- An array that only this object points to is written as its contents beside its address.
use infini_rt.Base.{
  ℕ, if◌then◌else◌, ltb, leb, ◌&&◌, ◌||◌, Option, none, some, Bool, List, [], ◌∷◌, length,
  replicate, take,
}
use infini_rt.Tensor.View.{fill_default_strides}
use infini_rt.Metadata.Layout.{narrow_size, combined_bytes, strides_place}

-- The loops that write a list into an array, `CopyRange` among them; a range is given by the
-- values that its `static_cast`s give.
abbrev pub copy_range : List ℕ → List ℕ → List ℕ
copy_range [] cells = cells
copy_range (x ∷ xs) [] = []
copy_range (x ∷ xs) (y ∷ cells) = x ∷ copy_range xs cells

pub record HeapStorage : Type 0 where
  pub allocation : Option ℕ
  pub shape : List ℕ
  pub strides : List ℕ
  pub shape_address : ℕ
  pub strides_address : ℕ
  pub shape_capacity : ℕ
  pub strides_capacity : ℕ

-- `union Storage`, by its active member.
pub data Storage : Type 0 where
  inline_storage : List ℕ → List ℕ → Storage
  heap_storage : HeapStorage → Storage

pub record ShapeStrides : Type 0 where
  pub storage : Storage
  pub shape_size : ℕ
  pub strides_size : ℕ

-- What a constructor does: it returns, `std::abort` is called, or `operator new` throws.
pub data Outcome : Type 0 where
  built : ShapeStrides → Outcome
  aborts throws : Outcome

-- A `SmallVector`, by its list, its capacity and the address of its heap block.
pub record OwnedVector : Type 0 where
  pub values : List ℕ
  pub capacity : ℕ
  pub address : ℕ

-- What a deallocation gives back: a block of `operator new`, or one of `std::allocator`.
pub data Freed : Type 0 where
  raw : ℕ → Freed
  array : ℕ → ℕ → Freed

module _ (inline_capacity : ℕ) (blank : ℕ) where
  abbrev blank_cells : List ℕ
  blank_cells = replicate inline_capacity blank

  abbrev pub empty : ShapeStrides
  empty = record {
    storage = inline_storage blank_cells blank_cells;
    shape_size = 0;
    strides_size = 0;
  }

  abbrev pub is_inline : ShapeStrides → Bool
  is_inline s = leb s.shape_size inline_capacity && leb s.strides_size inline_capacity

  -- A read of the member of the union that is not active is undefined, and gives no cells here.
  abbrev inline_shape : Storage → List ℕ
  inline_shape (inline_storage shape strides) = shape
  inline_shape (heap_storage h) = []

  abbrev inline_strides : Storage → List ℕ
  inline_strides (inline_storage shape strides) = strides
  inline_strides (heap_storage h) = []

  abbrev heap_shape : Storage → List ℕ
  heap_shape (inline_storage shape strides) = []
  heap_shape (heap_storage h) = h.shape

  abbrev heap_strides : Storage → List ℕ
  heap_strides (inline_storage shape strides) = []
  heap_strides (heap_storage h) = h.strides

  -- `ShapeData` and `StridesData`.
  abbrev pub shape_array : ShapeStrides → List ℕ
  shape_array s = if is_inline s then inline_shape s.storage else heap_shape s.storage

  abbrev pub strides_array : ShapeStrides → List ℕ
  strides_array s = if is_inline s then inline_strides s.storage else heap_strides s.storage

  -- `shape()` and `strides()`, as lists.
  abbrev pub shape_view : ShapeStrides → List ℕ
  shape_view s = take s.shape_size (shape_array s)

  abbrev pub strides_view : ShapeStrides → List ℕ
  strides_view s = take s.strides_size (strides_array s)

  -- The strides are at `place` in the block at `base`.
  abbrev activate_combined : ℕ → ℕ → List ℕ → List ℕ → ℕ → ℕ → ShapeStrides
  activate_combined base place shape strides shape_size strides_size = record {
    storage = heap_storage (record {
      allocation = some base;
      shape = shape;
      strides = strides;
      shape_address = base;
      strides_address = place;
      shape_capacity = 0;
      strides_capacity = 0;
    });
    shape_size = shape_size;
    strides_size = strides_size;
  }

  -- The combined allocation in use; `new` is `operator new`, none its exception.
  unfoldable pub combine : (ℕ → Option ℕ) → ℕ → ℕ → (List ℕ → List ℕ → List ℕ × List ℕ) → Outcome
  combine new shape_size strides_size writer = elim (combined_bytes shape_size strides_size) [
    | none ↦ aborts
    | some bytes ↦ elim (new bytes) [
      | none ↦ throws
      | some base ↦ elim (strides_place shape_size strides_size base bytes) [
        | none ↦ aborts
        | some place ↦
            let (shape, strides) =
              writer (replicate shape_size blank) (replicate strides_size blank) in
            built (activate_combined base place shape strides shape_size strides_size)
      ]
    ]
  ]

  unfoldable pub initialize : (ℕ → Option ℕ) → ℕ → ℕ → (List ℕ → List ℕ → List ℕ × List ℕ) → Outcome
  initialize new shape_size strides_size writer = elim (narrow_size shape_size) [
    | none ↦ aborts
    | some narrowed_shape ↦ elim (narrow_size strides_size) [
      | none ↦ aborts
      | some narrowed_strides ↦
          if leb shape_size inline_capacity && leb strides_size inline_capacity
          then (let (shape, strides) = writer blank_cells blank_cells in
              built (record {
                storage = inline_storage shape strides;
                shape_size = narrowed_shape;
                strides_size = narrowed_strides;
              }))
          else combine new shape_size strides_size writer
    ]
  ]

  -- `CopyRange` of both ranges, and of the shape before its default strides.
  abbrev pub write_ranges : List ℕ → List ℕ → List ℕ → List ℕ → List ℕ × List ℕ
  write_ranges shape strides to_shape to_strides =
      (copy_range shape to_shape, copy_range strides to_strides)

  abbrev pub write_default : List ℕ → List ℕ → List ℕ → List ℕ × List ℕ
  write_default shape to_shape to_strides = (
    copy_range shape to_shape,
    fill_default_strides (copy_range shape to_shape) (length shape) to_strides,
  )

  unfoldable pub initialize_ranges : (ℕ → Option ℕ) → List ℕ → List ℕ → Outcome
  initialize_ranges new shape strides =
      initialize new (length shape) (length strides) (write_ranges shape strides)

  unfoldable pub initialize_default_strides : (ℕ → Option ℕ) → List ℕ → Outcome
  initialize_default_strides new shape =
      initialize new (length shape) (length shape) (write_default shape)

  -- The blocks of two vectors are taken over.
  unfoldable pub activate_split : OwnedVector → OwnedVector → ShapeStrides
  activate_split shape strides = record {
    storage = heap_storage (record {
      allocation = none;
      shape = shape.values;
      strides = strides.values;
      shape_address = shape.address;
      strides_address = strides.address;
      shape_capacity = shape.capacity;
      strides_capacity = strides.capacity;
    });
    shape_size = length shape.values;
    strides_size = length strides.values;
  }

  -- What `ReleaseHeap` leaves of a vector on the heap, and what the destructor of a vector gives back.
  abbrev pub emptied : OwnedVector
  emptied = record { values = []; capacity = inline_capacity; address = 0 }

  abbrev pub vector_blocks : OwnedVector → List Freed
  vector_blocks v = if ltb inline_capacity v.capacity then array v.address v.capacity ∷ [] else []

  -- The outcome, and the two vectors afterwards.
  unfoldable pub initialize_owned :
      (ℕ → Option ℕ) → OwnedVector → OwnedVector → Outcome × OwnedVector × OwnedVector
  initialize_owned new shape strides =
      let n = length shape.values in
      let m = length strides.values in
      if leb n inline_capacity && leb m inline_capacity
      then (initialize_ranges new shape.values strides.values, shape, strides)
      else if ltb inline_capacity shape.capacity && ltb inline_capacity strides.capacity
      then elim (narrow_size n) [
        | none ↦ (aborts, shape, strides)
        | some _ ↦ elim (narrow_size m) [
          | none ↦ (aborts, shape, strides)
          | some _ ↦ (built (activate_split shape strides), emptied, emptied)
        ]
      ]
      else (initialize_ranges new shape.values strides.values, shape, strides)

  -- A copy of a vector on the heap has the same capacity, in another block.
  abbrev pub copy_of : OwnedVector → ℕ → OwnedVector
  copy_of v address = record v { address = address }

  -- Where a local vector gets its block, or none if the allocator throws. The results are the
  -- outcome, the moved vector afterwards, and what the destructor of the local vector gives back.
  unfoldable pub initialize_mixed :
      (ℕ → Option ℕ) → Option ℕ → OwnedVector → OwnedVector → Outcome × OwnedVector × List Freed
  initialize_mixed new fresh shape strides =
      if ltb inline_capacity (length shape.values)
        && ltb inline_capacity (length strides.values)
        && ltb inline_capacity shape.capacity
      then elim fresh [
        | none ↦ (throws, shape, [])
        | some address ↦
            let (r, moved, owned) = initialize_owned new shape (copy_of strides address) in
            (r, moved, vector_blocks owned)
      ]
      else (initialize_ranges new shape.values strides.values, shape, [])

  unfoldable pub initialize_mixed_strides :
      (ℕ → Option ℕ) → Option ℕ → OwnedVector → OwnedVector → Outcome × OwnedVector × List Freed
  initialize_mixed_strides new fresh shape strides =
      if ltb inline_capacity (length shape.values)
        && ltb inline_capacity (length strides.values)
        && ltb inline_capacity strides.capacity
      then elim fresh [
        | none ↦ (throws, strides, [])
        | some address ↦
            let (r, owned, moved) = initialize_owned new (copy_of shape address) strides in
            (r, moved, vector_blocks owned)
      ]
      else (initialize_ranges new shape.values strides.values, strides, [])

  -- The strides that `InitializeDefaultStrides` of a moved shape makes: a vector of that many zeros,
  -- which it then fills.
  abbrev pub filled_strides : OwnedVector → ℕ → OwnedVector
  filled_strides shape address =
      let n = length shape.values in
      record {
        values = fill_default_strides shape.values n (replicate n 0);
        capacity = n;
        address = address;
      }

  unfoldable pub initialize_moved_shape :
      (ℕ → Option ℕ) → Option ℕ → OwnedVector → Outcome × OwnedVector × List Freed
  initialize_moved_shape new fresh shape =
      if leb (length shape.values) inline_capacity || leb shape.capacity inline_capacity
      then (initialize_default_strides new shape.values, shape, [])
      else elim fresh [
        | none ↦ (throws, shape, [])
        | some address ↦
            let (r, moved, strides) = initialize_owned new shape (filled_strides shape address) in
            (r, moved, vector_blocks strides)
      ]

  unfoldable pub move_construct : ShapeStrides → ShapeStrides × ShapeStrides
  move_construct other =
      if is_inline other
      then (
        record {
          storage =
              inline_storage (copy_range (shape_view other) blank_cells)
                (copy_range (strides_view other) blank_cells);
          shape_size = other.shape_size;
          strides_size = other.strides_size;
        },
        record other { shape_size = 0; strides_size = 0 },
      )
      else (other, empty)

  -- `ReleaseStorage`, by what it gives back.
  abbrev release_heap : Storage → List Freed
  release_heap (inline_storage shape strides) = []
  release_heap (heap_storage h) = elim h.allocation [
    | some p ↦ raw p ∷ []
    | none ↦
        array h.shape_address h.shape_capacity ∷ array h.strides_address h.strides_capacity ∷ []
  ]

  unfoldable pub release_storage : ShapeStrides → List Freed
  release_storage s = if is_inline s then [] else release_heap s.storage
