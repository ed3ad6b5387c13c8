-- ===== src/Pool/Allocate.antt =====
-- Allocation in src/reusable_memory_pool.cc: `align_up`, `freeze_for_capture_`, `allocate_block_`
-- and `allocate_impl_`. A call returns its result, the state and the world; an exception keeps both.
use infini_rt.Base.{
  ℕ, suc, ◌+◌, ◌-◌, ◌*◌, ◌/◌, Bool, true, false, not, ◌&&◌, ltb, leb, ◌==◌, if◌then◌else◌, List, [],
  ◌∷◌, ◌++◌, Option, none, some, count, erase_first, remove, inc64, u64_mod,
}
use infini_rt.Facade.{Facade}
use infini_rt.Pool.Machine.{
  Kind, size_class, large, exact, Block, new_block, SizeClass, State, Error, too_large, zero_exact,
  query_capture, grow_in_capture, allocate_class, allocate_large, Result, ok, err, free_of,
  block_size_of, set_free, update, emplace, erase,
}

-- `alignment - 1` of a positive alignment.
unfoldable pub align_up : ℕ → ℕ → Result ℕ
align_up size alignment =
    if ltb (u64_mod - 1 - (alignment - 1)) size
    then err too_large
    else ok ((size + alignment - 1) / alignment * alignment)

abbrev pub owns : ℕ → Option ℕ → Bool
owns tid none = false
owns tid (some owner) = owner == tid

-- `pinned_mode_ && pin_owner_ == std::this_thread::get_id()`.
abbrev pub capturing : ℕ → State → Bool
capturing tid s = s.pinned_mode && owns tid s.pin_owner

unfoldable pub freeze_for_capture : ℕ → ℕ → State → State
freeze_for_capture tid block s =
    if capturing tid s && (count block s.capture_frozen_block_set == 0)
    then record s {
      capture_frozen_blocks = s.capture_frozen_blocks ++ block ∷ [];
      capture_frozen_block_set = block ∷ s.capture_frozen_block_set;
      heap =
          update s.heap block
            (record (s.heap block) { pin_count = inc64 (s.heap block).pin_count });
    }
    else s

unfoldable pub generation : ℕ → State → ℕ
generation tid s = if capturing tid s then s.capture_generation else 0

-- The first block of a list that a test accepts, as `find_if` finds it.
unfoldable pub find_block : (Block → Bool) → (ℕ → Block) → List ℕ → Option ℕ
find_block test heap [] = none
find_block test heap (i ∷ is) = if test (heap i) then some i else find_block test heap is

abbrev pub is_free : Block → Bool
is_free b = not b.in_use

abbrev pub kind_eq : Kind → Kind → Bool
kind_eq size_class size_class = true
kind_eq large large = true
kind_eq exact exact = true
kind_eq _ _ = false

abbrev pub large_fits : ℕ → Bool → Block → Bool
large_fits size is_exact b =
    not b.in_use
    && kind_eq b.kind (if is_exact then exact else large)
    && (if is_exact then b.size == size else leb size b.size)

-- A block that is taken again: the assignments of both reuse branches.
unfoldable pub reuse : ℕ → ℕ → State → State
unfolding freeze_for_capture generation
reuse tid block s =
    let s1 = freeze_for_capture tid block s in
    let taken : Block = record (s1.heap block) {
      allocation_capture_generation = generation tid s;
      in_use = true;
      use_count = 1;
    } in
    record s1 { heap = update s1.heap block taken }

-- The reuse branch of a size class takes the block off its free list.
unfoldable pub reuse_class : ℕ → ℕ → ℕ → State → State
unfolding reuse
reuse_class tid c block s =
    let s1 = reuse tid block s in
    record s1 {
      size_classes = set_free s1.size_classes c (erase_first block (free_of s1.size_classes c));
    }

-- The class that the loop over the classes stops at.
unfoldable pub choose_class : ℕ → List SizeClass → ℕ → Option ℕ
choose_class size [] c = none
choose_class size (cls ∷ rest) c =
    if leb size cls.block_size then some c else choose_class size rest (suc c)

-- A block that `make_shared` makes, put on the heap under the next number.
unfoldable pub new_entry : Block → State → State
new_entry b s = record s { heap = update s.heap s.next_block b; next_block = suc s.next_block }

-- The new blocks of the two growth branches.
abbrev pub class_block : ℕ → ℕ → Block
class_block block_size c = record new_block {
  size = block_size;
  kind = size_class;
  class_index = c;
  in_use = true;
  use_count = 1;
}

abbrev pub large_block : ℕ → Bool → Block
large_block size is_exact = record new_block {
  size = size;
  kind = if is_exact then exact else large;
  in_use = true;
  use_count = 1;
}

module _ {W : Type 0} (f : Facade W) where
  -- The status and pointer of the backend, unless the call throws.
  unfoldable pub allocate_block : ℕ → State → W → Result (ℕ × ℕ) × W
  allocate_block size s w =
      let (status, capturing_now) = f.is_capturing s.allocation_stream w in
      let (status_async, ptr_async, w_async) = f.malloc_async size s.allocation_stream w in
      let (status_sync, ptr_sync, w_sync) = f.malloc size w in
      if f.with_nvidia && not (s.allocation_stream == 0) && not (status == 0)
      then (err query_capture, w)
      else if f.with_nvidia && not (s.allocation_stream == 0) && capturing_now
      then (err grow_in_capture, w)
      else if not (s.allocation_stream == 0)
      then (ok (status_async, ptr_async), w_async)
      else (ok (status_sync, ptr_sync), w_sync)

  unfoldable pub free_block : ℕ → State → W → ℕ × W
  free_block ptr s w =
      if not (s.allocation_stream == 0)
      then f.free_async ptr s.allocation_stream w
      else f.free ptr w

  -- The handler of both `try` blocks: the new block is taken out again.
  unfoldable pub undo_growth : ℕ → Bool → State → W → State × W
  unfolding free_block
  undo_growth block listed s w =
      let ptr = (s.heap block).ptr in
      if ptr == 0 then (s, w) else (
        record s {
          large_blocks = if listed then remove block s.large_blocks else s.large_blocks;
          all_blocks = erase ptr s.all_blocks;
        },
        (free_block ptr s w).1,
      )

  -- The rest of the `try` block once the backend has answered. `listed` says that the block goes to
  -- `large_blocks_` too.
  unfoldable pub enter_block : ℕ → Block → Bool → Error → State → ℕ → ℕ → W → Result ℕ × State × W
  unfolding undo_growth new_entry freeze_for_capture generation
  enter_block tid b listed failure s status ptr w =
      let i = s.next_block in
      let s1 = new_entry (record b { ptr = ptr }) s in
      let (undone, w_undone) = undo_growth i listed s1 w in
      let s2 : State = record s1 {
        all_blocks = emplace ptr i s1.all_blocks;
        large_blocks = if listed then s1.large_blocks ++ i ∷ [] else s1.large_blocks;
      } in
      let s3 = freeze_for_capture tid i s2 in
      let b3 : Block = record (s3.heap i) { allocation_capture_generation = generation tid s } in
      if status == 0
      then (ok ptr, record s3 { heap = update s3.heap i b3 }, w)
      else (err failure, undone, w_undone)

  -- When `allocate_block_` throws, the handler finds a null pointer and only the unreachable new
  -- block is left.
  unfoldable pub finish_growth :
      ℕ → Block → Bool → Error → State → Result (ℕ × ℕ) × W → Result ℕ × State × W
  unfolding enter_block
  finish_growth tid b listed failure s (err e, w) = (err e, new_entry b s, w)
  finish_growth tid b listed failure s (ok (status, ptr), w) =
      enter_block tid b listed failure s status ptr w

  -- Both growth branches, from `make_shared` on.
  unfoldable pub grow : ℕ → Block → Bool → Error → State → W → Result ℕ × State × W
  unfolding finish_growth
  grow tid b listed failure s w = finish_growth tid b listed failure s (allocate_block b.size s w)

  -- The body of the loop at the class that it stops at.
  unfoldable pub allocate_in_class : ℕ → ℕ → State → W → Result ℕ × State × W
  unfolding find_block
  allocate_in_class tid c s w = elim (find_block is_free s.heap (free_of s.size_classes c)) [
    | some i ↦ (ok (s.heap i).ptr, reuse_class tid c i s, w)
    | none ↦ grow tid (class_block (block_size_of s.size_classes c) c) false allocate_class s w
  ]

  -- The part after the loop.
  unfoldable pub allocate_large_or_exact : ℕ → ℕ → Bool → State → W → Result ℕ × State × W
  unfolding find_block
  allocate_large_or_exact tid size is_exact s w =
      elim (find_block (large_fits size is_exact) s.heap s.large_blocks) [
        | some i ↦ (ok (s.heap i).ptr, reuse tid i s, w)
        | none ↦ grow tid (large_block size is_exact) true allocate_large s w
      ]

  -- The part under the lock, for a size that is rounded up.
  unfoldable pub allocate_aligned : ℕ → ℕ → Bool → State → W → Result ℕ × State × W
  unfolding choose_class allocate_in_class allocate_large_or_exact
  allocate_aligned tid size is_exact s w =
      elim (if is_exact then none else choose_class size s.size_classes 0) [
        | some c ↦ allocate_in_class tid c s w
        | none ↦ allocate_large_or_exact tid size is_exact s w
      ]

  -- A null result is 0.
  unfoldable pub allocate_impl : ℕ → ℕ → Bool → State → W → Result ℕ × State × W
  unfolding align_up allocate_aligned
  allocate_impl tid size is_exact s w =
      if size == 0
      then (if is_exact then err zero_exact else ok 0, s, w)
      else elim (align_up size 256) [
        | err e ↦ (err e, s, w)
        | ok aligned ↦ allocate_aligned tid aligned is_exact s w
      ]
