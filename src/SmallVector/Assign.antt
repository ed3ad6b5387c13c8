-- ===== src/SmallVector/Assign.antt =====
-- Copies, moves and the release of a `SmallVector` (src/common/small_vector.h).
use infini_rt.Base.{
  ℕ, zero, suc, Bool, true, false, Option, none, some, List, ltb, if◌then◌else◌, length, get_or,
}
use infini_rt.SmallVector.Memory.{Config, Memory, require, copy_into, allocate, deallocate}
use infini_rt.SmallVector.Storage.{
  SmallVector, heap_address, empty, is_heap, data_of, construct, reconstruct_inline,
  replace_with_heap, switch_to_inline, reallocate,
}
use infini_rt.SmallVector.Modify.{clear, grow_size}

-- `HeapAllocation`: none is the null pointer of `data_`.
pub record HeapAllocation : Type 0 where
  pub heap_pointer : Option ℕ
  pub size : ℕ
  pub capacity : ℕ

abbrev pub no_allocation : HeapAllocation
no_allocation = record { heap_pointer = none; size = 0; capacity = 0 }

-- `Reset`, which is also the destructor.
unfoldable pub reset : {A : Type 0} → HeapAllocation → Memory A → HeapAllocation × Memory A
reset a h = (no_allocation, elim a.heap_pointer [ none ↦ h | some p ↦ deallocate p a.capacity h ])

-- The move constructor of an allocation, and its move assignment from another object.
abbrev pub take_allocation : HeapAllocation → HeapAllocation × HeapAllocation
take_allocation other = (other, no_allocation)

unfoldable pub assign_allocation :
    {A : Type 0}
    → HeapAllocation
    → HeapAllocation
    → Memory A
    → HeapAllocation × HeapAllocation × Memory A
unfolding reset
assign_allocation a other h = let (_, h1) = reset a h in (other, no_allocation, h1)

-- `release`: the address, and the allocation that owns it no longer.
abbrev pub release : HeapAllocation → Option ℕ × HeapAllocation
release a = (a.heap_pointer, no_allocation)

module _ {A : Type 0} (c : Config A) where
  -- The loop that constructs the next `n` elements from those of another array.
  unfoldable pub construct_range : ℕ → List A → SmallVector A → Memory A → SmallVector A × Memory A
  construct_range zero source v h = (v, h)
  construct_range (suc n) source v h =
      let (v1, h1) =
        construct c v v.size (get_or source v.size c.blank)
          (require (ltb v.size (length source)) h) in
      construct_range n source (grow_size v1) h1

  -- The rest of `CopyConstructFrom` after the storage is there.
  abbrev pub construct_copy :
      SmallVector A → Bool × SmallVector A × Memory A → Bool × SmallVector A × Memory A
  construct_copy other (true, v, h) =
      let (v1, h1) = construct_range other.size (data_of c other h) v h in (true, v1, h1)
  construct_copy other (false, v, h) = (false, v, h)

  unfoldable pub copy_construct :
      (ℕ → Memory A → Bool) → SmallVector A → Memory A → Bool × SmallVector A × Memory A
  copy_construct grants other h = construct_copy other (
      if is_heap c other
      then reallocate c grants other.capacity (empty c) h
      else (true, empty c, h))

  -- The new vector and the old one.
  unfoldable pub move_construct :
      SmallVector A → Memory A → SmallVector A × SmallVector A × Memory A
  move_construct other h =
      if is_heap c other
      then (other, reconstruct_inline c other, h)
      else let (v, h1) = construct_range other.size (data_of c other h) (empty c) h in
        (v, clear other, h1)

  abbrev pub set_size : ℕ → SmallVector A × Memory A → SmallVector A × Memory A
  set_size n (v, h) = (record v { size = n }, h)

  -- The loop of `AssignInline` over the inline array.
  unfoldable pub assign_values : ℕ → List A → SmallVector A → Memory A → SmallVector A × Memory A
  assign_values zero values v h = (v, h)
  assign_values (suc n) values v h =
      let (v1, h1) = assign_values n values v h in
      construct c v1 n (get_or values n c.blank) (require (ltb n (length values)) h1)

  unfoldable pub assign_inline : List A → ℕ → SmallVector A → Memory A → SmallVector A × Memory A
  assign_inline values count v h =
      let (v1, h1) = if is_heap c v then switch_to_inline c v h else (v, h) in
      set_size count (assign_values count values v1 h1)

  -- `CopyAssignHeap`, when the allocation has answered.
  abbrev pub replace_copy :
      SmallVector A → SmallVector A → Option ℕ × Memory A → Bool × SmallVector A × Memory A
  replace_copy other v (none, h) = (false, v, h)
  replace_copy other v (some p, h) =
      let (v1, h1) =
        replace_with_heap c p other.size other.capacity v
          (copy_into c.blank p other.size (data_of c other h) h) in
      (true, v1, h1)

  -- The two assignments, of another object than the target.
  unfoldable pub copy_assign :
      (ℕ → Memory A → Bool)
      → SmallVector A
      → SmallVector A
      → Memory A
      → Bool × SmallVector A × Memory A
  copy_assign grants v other h =
      if is_heap c other
      then replace_copy other v (allocate c grants other.capacity h)
      else let (v1, h1) = assign_inline (data_of c other h) other.size v h in (true, v1, h1)

  unfoldable pub move_assign :
      SmallVector A → SmallVector A → Memory A → SmallVector A × SmallVector A × Memory A
  move_assign v other h =
      if is_heap c other
      then (let (v1, h1) =
            replace_with_heap c (heap_address other.storage) other.size other.capacity v h in
          (v1, reconstruct_inline c other, h1))
      else let (v1, h1) = assign_inline (data_of c other h) other.size v h in (v1, clear other, h1)

  unfoldable pub release_heap : SmallVector A → HeapAllocation × SmallVector A
  release_heap v =
      if is_heap c v
      then (
        record {
          heap_pointer = some (heap_address v.storage);
          size = v.size;
          capacity = v.capacity;
        },
        reconstruct_inline c v,
      )
      else (no_allocation, v)
