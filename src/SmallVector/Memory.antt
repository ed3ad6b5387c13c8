-- ===== src/SmallVector/Memory.antt =====
-- The memory under src/common/small_vector.h: the blocks of `std::allocator`, by their address.
-- Undefined behaviour (a write or read out of bounds, a wrong deallocation) sets `fault` for good.
use infini_rt.Base.{
  ℕ, zero, suc, Bool, false, not, ◌||◌, Option, none, some, List, [], ltb, ◌==◌, if◌then◌else◌,
  length, get_or, set, replicate,
}

-- The element type's own values, and the allocator: how many elements it grants in which memory.
-- `blank` is what a cell holds that no one wrote.
pub record Config (A : Type 0) : Type 0 where
  pub inline_capacity : ℕ
  pub max_size : ℕ
  pub blank : A
  pub value_initialized : A

pub record Memory (A : Type 0) : Type 0 where
  pub top : ℕ
  pub blocks : ℕ → Option (List A)
  pub fault : Bool

abbrev pub put : {A : Type 0} → ℕ → Option (List A) → Memory A → Memory A
put p b h = record h { blocks = λ q. if p == q then b else h.blocks q }

-- What must hold here for the behaviour to be defined.
abbrev pub require : {A : Type 0} → Bool → Memory A → Memory A
require b h = record h { fault = h.fault || not b }

abbrev pub block_at : {A : Type 0} → ℕ → Memory A → List A
block_at p h = elim (h.blocks p) [ none ↦ [] | some cells ↦ cells ]

-- `AllocatorTraits::deallocate`, which wants the capacity that the block was allocated with.
unfoldable pub deallocate : {A : Type 0} → ℕ → ℕ → Memory A → Memory A
deallocate p n h = elim (h.blocks p) [
  | none ↦ require false h
  | some cells ↦ if length cells == n then put p none h else require false h
]

-- `Construct` at an element of a block.
unfoldable pub construct_at : {A : Type 0} → ℕ → ℕ → A → Memory A → Memory A
construct_at p i x h = elim (h.blocks p) [
  | none ↦ require false h
  | some cells ↦ if ltb i (length cells) then put p (some (set cells i x)) h else require false h
]

-- The loop that constructs the elements below `n` of a block from those of `source`.
unfoldable pub copy_into : {A : Type 0} → A → ℕ → ℕ → List A → Memory A → Memory A
copy_into d p zero source h = h
copy_into d p (suc n) source h =
    construct_at p n (get_or source n d)
      (require (ltb n (length source)) (copy_into d p n source h))

module _ {A : Type 0} (c : Config A) (grants : ℕ → Memory A → Bool) where
  -- `AllocatorTraits::allocate`: none is `std::bad_alloc`.
  unfoldable pub allocate : ℕ → Memory A → Option ℕ × Memory A
  allocate n h =
      if grants n h
      then (
        some (suc h.top),
        put (suc h.top) (some (replicate n c.blank)) (record h { top = suc h.top }),
      )
      else (none, h)
