-- ===== src/SmallVector/Valid.antt =====
-- When a `SmallVector` (src/common/small_vector.h) and the memory under it stand for a list.
use infini_rt.Base.{
  ℕ, ◌≤◌, ◌<◌, ◌≡◌, Bool, false, none, some, List, ◌==◌, if◌then◌else◌, length, take,
}
use infini_rt.SmallVector.Memory.{Config, Memory, block_at}
use infini_rt.SmallVector.Storage.{SmallVector, Storage, inline_storage, heap_data}

-- Whether the vector owns the block at an address.
abbrev pub owns : {A : Type 0} → Storage A → ℕ → Bool
owns (inline_storage cells) q = false
owns (heap_data p) q = p == q

-- No block stands above the last address that was handed out, and nothing undefined has happened.
pub record Sane {A : Type 0} (h : Memory A) : Type 0 where
  pub defined : h.fault ≡ false
  pub unused : (q : ℕ) → h.top < q → h.blocks q ≡ none

-- The cells that a storage gives.
abbrev pub cells_of : {A : Type 0} → Storage A → Memory A → List A
cells_of (inline_storage cells) h = cells
cells_of (heap_data p) h = block_at p h

module _ {A : Type 0} (c : Config A) where
  -- The capacity tells which member of the union is active. A heap block is owned, and it has exactly
  -- the capacity that it will be deallocated with.
  abbrev pub Shape : Storage A → ℕ → Memory A → Type 0
  Shape (inline_storage cells) capacity h =
      (capacity ≡ c.inline_capacity) × (length cells ≡ c.inline_capacity)
  Shape (heap_data p) capacity h =
      (c.inline_capacity < capacity)
      × (0 < p)
      × (p ≤ h.top)
      × ((cells : List A) × (h.blocks p ≡ some cells) × (length cells ≡ capacity))

  pub record Holds (v : SmallVector A) (h : Memory A) (xs : List A) : Type 0 where
    pub fits : v.size ≤ v.capacity
    pub bounded : v.capacity ≤ c.max_size
    pub shaped : Shape v.storage v.capacity h
    pub contents : take v.size (cells_of v.storage h) ≡ xs

-- Between two memories only the blocks of a vector changed: the old one is gone if it is no longer
-- owned, and any other block is what it was.
abbrev pub Frame : {A : Type 0} → Storage A → Memory A → Storage A → Memory A → Type 0
Frame old h new h' =
    (q : ℕ) → owns new q ≡ false → h'.blocks q ≡ (if owns old q then none else h.blocks q)
