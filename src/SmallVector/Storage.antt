-- ===== src/SmallVector/Storage.antt =====
-- The state of a `SmallVector` (src/common/small_vector.h) and the steps that change its storage.
use infini_rt.Base.{
  ℕ, ◌+◌, ◌-◌, ◌/◌, ◌%◌, Bool, true, false, not, ◌&&◌, Option, none, some, List, [], ltb, ◌==◌,
  if◌then◌else◌, length, set, replicate, u64_mod,
}
use infini_rt.SmallVector.Memory.{
  Config, Memory, require, block_at, deallocate, construct_at, copy_into, allocate,
}

-- `union Storage`, by its active member.
pub data Storage (A : Type 0) : Type 0 where
  inline_storage : List A → Storage A
  heap_data : ℕ → Storage A

pub record SmallVector (A : Type 0) : Type 0 where
  pub storage : Storage A
  pub size : ℕ
  pub capacity : ℕ

abbrev pub heap_address : {A : Type 0} → Storage A → ℕ
heap_address (inline_storage cells) = 0
heap_address (heap_data p) = p

abbrev pub inline_cells : {A : Type 0} → Storage A → List A
inline_cells (inline_storage cells) = cells
inline_cells (heap_data p) = []

module _ {A : Type 0} (c : Config A) where
  abbrev pub empty : SmallVector A
  empty = record {
    storage = inline_storage (replicate c.inline_capacity c.blank);
    size = 0;
    capacity = c.inline_capacity;
  }

  abbrev pub is_heap : SmallVector A → Bool
  is_heap v = ltb c.inline_capacity v.capacity

  -- The array that `data()` points to.
  unfoldable pub data_of : SmallVector A → Memory A → List A
  data_of v h = if is_heap v then block_at (heap_address v.storage) h else inline_cells v.storage

  unfoldable pub construct : SmallVector A → ℕ → A → Memory A → SmallVector A × Memory A
  construct v i x h = if is_heap v then (v, construct_at (heap_address v.storage) i x h) else (
    record v { storage = inline_storage (set (inline_cells v.storage) i x) },
    require (ltb i (length (inline_cells v.storage))) h,
  )

  -- The storage ends with no deallocation, and starts again as an inline one.
  abbrev pub reconstruct_inline : SmallVector A → SmallVector A
  reconstruct_inline v = empty

  unfoldable pub replace_with_heap : ℕ → ℕ → ℕ → SmallVector A → Memory A → SmallVector A × Memory A
  replace_with_heap new_data new_size new_capacity v h = (
    record { storage = heap_data new_data; size = new_size; capacity = new_capacity },
    if is_heap v && not (heap_address v.storage == 0)
        then deallocate (heap_address v.storage) v.capacity h
        else h,
  )

  unfoldable pub switch_to_inline : SmallVector A → Memory A → SmallVector A × Memory A
  switch_to_inline v h = (reconstruct_inline v, deallocate (heap_address v.storage) v.capacity h)

  -- The destructor.
  unfoldable pub destroy : SmallVector A → Memory A → Memory A
  destroy v h = if is_heap v then deallocate (heap_address v.storage) v.capacity h else h

  -- The capacity that `GrowForAppend` asks for: half as much again, at least one more, at most
  -- `max_size`.
  unfoldable pub grown : ℕ → ℕ
  grown capacity =
      let increment = if capacity / 2 == 0 then 1 else capacity / 2 in
      if ltb ((c.max_size + u64_mod - capacity) % u64_mod) increment
      then c.max_size
      else (capacity + increment) % u64_mod

  -- `Reallocate`, when the allocation has answered. False is the exception, which leaves the vector
  -- as it was.
  unfoldable pub move_to : ℕ → SmallVector A → Option ℕ × Memory A → Bool × SmallVector A × Memory A
  move_to new_capacity v (none, h) = (false, v, h)
  move_to new_capacity v (some new_data, h) =
      let copied = copy_into c.blank new_data v.size (data_of v h) h in
      let (v1, h1) = replace_with_heap new_data v.size new_capacity v copied in (true, v1, h1)

  unfoldable pub reallocate :
      (ℕ → Memory A → Bool) → ℕ → SmallVector A → Memory A → Bool × SmallVector A × Memory A
  reallocate grants new_capacity v h = move_to new_capacity v (allocate c grants new_capacity h)
