-- ===== src/Pool/Pin.antt =====
-- The pin transaction of src/reusable_memory_pool.cc: `begin_pin_mode`, `commit_pin_mode`,
-- `cancel_pin_mode`, `retain_for_capture`, and the end of a lease.
use infini_rt.Base.{
  ℕ, ◌-◌, Bool, true, false, not, ◌&&◌, ◌||◌, ltb, ◌==◌, if◌then◌else◌, List, [], ◌∷◌, Option, none,
  some, inc64, u64_mod,
}
use infini_rt.Pool.Machine.{
  Block, State, already_pinned, stale_blocks, generation_exhausted, commit_by_other,
  cancel_by_other, not_capturing, not_pool_owned, Result, ok, err, update, find,
}
use infini_rt.Pool.Allocate.{owns, capturing, freeze_for_capture}

abbrev pub is_empty : List ℕ → Bool
is_empty [] = true
is_empty (x ∷ xs) = false

unfoldable pub unpin : (ℕ → Block) → ℕ → ℕ → Block
unpin heap i = update heap i (record (heap i) {
  pin_count = if ltb 0 (heap i).pin_count then (heap i).pin_count - 1 else (heap i).pin_count;
})

-- The loop of `release_frozen_blocks_` and of `cancel_pin_mode`.
unfoldable pub unpin_all : (ℕ → Block) → List ℕ → ℕ → Block
unfolding unpin
unpin_all heap [] = heap
unpin_all heap (i ∷ is) = unpin_all (unpin heap i) is

-- The destructor of a `PinState` that holds these blocks.
unfoldable pub release_frozen_blocks : List ℕ → State → State
unfolding unpin_all
release_frozen_blocks blocks s = record s { heap = unpin_all s.heap blocks }

unfoldable pub begin_pin_mode : ℕ → State → Result ℕ × State
begin_pin_mode tid s =
    if s.pinned_mode
    then (err already_pinned, s)
    else if not (is_empty s.capture_frozen_blocks) || not (is_empty s.capture_frozen_block_set)
    then (err stale_blocks, s)
    else if s.capture_generation == u64_mod - 1
    then (err generation_exhausted, s)
    else (
      ok 0,
      record s {
        capture_generation = inc64 s.capture_generation;
        pinned_mode = true;
        pin_owner = some tid;
      },
    )

-- A lease is the list of the blocks that it keeps pinned; `none` is the null lease.
unfoldable pub commit_pin_mode : ℕ → State → Result (Option (List ℕ)) × State
commit_pin_mode tid s =
    if not s.pinned_mode
    then (ok none, s)
    else if not (owns tid s.pin_owner)
    then (err commit_by_other, s)
    else (
      ok (some s.capture_frozen_blocks),
      record s {
        pinned_mode = false;
        pin_owner = none;
        capture_frozen_blocks = [];
        capture_frozen_block_set = [];
      },
    )

unfoldable pub cancel_pin_mode : ℕ → State → Result ℕ × State
unfolding unpin_all
cancel_pin_mode tid s =
    if s.pinned_mode && not (owns tid s.pin_owner) then (err cancel_by_other, s) else (
      ok 0,
      record s {
        heap = unpin_all s.heap s.capture_frozen_blocks;
        capture_frozen_blocks = [];
        capture_frozen_block_set = [];
        pinned_mode = false;
        pin_owner = none;
      },
    )

-- True if the logical allocation predates this pin transaction.
unfoldable pub retain_for_capture : ℕ → ℕ → State → Result Bool × State
unfolding freeze_for_capture
retain_for_capture tid ptr s =
    if not (capturing tid s) then (err not_capturing, s) else elim (find ptr s.all_blocks) [
      | none ↦ (err not_pool_owned, s)
      | some i ↦ (
        ok (not ((s.heap i).allocation_capture_generation == s.capture_generation)),
        freeze_for_capture tid i s,
      )
    ]
