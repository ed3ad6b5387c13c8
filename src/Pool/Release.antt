-- ===== src/Pool/Release.antt =====
-- The other operations of src/reusable_memory_pool.cc on blocks: `deallocate`, `retain_allocation`,
-- `pinned_bytes` and `trim`.
use infini_rt.Base.{
  ℕ, ◌+◌, ◌-◌, ◌%◌, Bool, true, false, not, ◌&&◌, ◌||◌, ltb, ◌==◌, if◌then◌else◌, List, [], ◌∷◌,
  ◌++◌, none, some, remove, inc64, u64_mod,
}
use infini_rt.Facade.{Facade}
use infini_rt.Pool.Machine.{
  size_class, Block, SizeClass, State, unknown_pointer, double_free, trim_class, trim_large, Result,
  ok, err, free_of, set_free, update, find, erase,
}
use infini_rt.Pool.Allocate.{kind_eq, free_block}

-- The last owner's release: the block goes back to its class, and is marked free.
unfoldable pub give_back : ℕ → State → State
give_back i s =
    let b = s.heap i in
    let freed : Block = record b { use_count = 0; in_use = false } in
    record s {
      size_classes =
          if kind_eq b.kind size_class
          then set_free s.size_classes b.class_index
              (free_of s.size_classes b.class_index ++ i ∷ [])
          else s.size_classes;
      heap = update s.heap i freed;
    }

unfoldable pub release_block : ℕ → State → Result ℕ × State
unfolding give_back
release_block i s =
    let b = s.heap i in
    if not b.in_use || (b.use_count == 0)
    then (err double_free, s)
    else if ltb 1 b.use_count
    then (ok 0, record s { heap = update s.heap i (record b { use_count = b.use_count - 1 }) })
    else (ok 0, give_back i s)

-- The result 0 stands for `void`.
unfoldable pub deallocate : ℕ → State → Result ℕ × State
unfolding release_block
deallocate ptr s = if ptr == 0 then (ok 0, s) else elim (find ptr s.all_blocks) [
  | none ↦ (err unknown_pointer, s)
  | some i ↦ release_block i s
]

unfoldable pub retain_block : ℕ → State → Result ℕ × State
retain_block i s =
    let b = s.heap i in
    let held : Block = record b { in_use = true; use_count = inc64 b.use_count } in
    (
      ok b.size,
      record s {
        size_classes =
            if kind_eq b.kind size_class
            then set_free s.size_classes b.class_index
                (remove i (free_of s.size_classes b.class_index))
            else s.size_classes;
        heap = update s.heap i held;
      },
    )

unfoldable pub retain_allocation : ℕ → State → Result ℕ × State
unfolding retain_block
retain_allocation ptr s = elim (find ptr s.all_blocks) [
  | none ↦ (err unknown_pointer, s)
  | some i ↦ retain_block i s
]

unfoldable pub add_pinned : (ℕ → Block) → ℕ → List (ℕ × ℕ) → ℕ
add_pinned heap bytes [] = bytes
add_pinned heap bytes ((p, i) ∷ rest) =
    add_pinned heap (if ltb 0 (heap i).pin_count then (bytes + (heap i).size) % u64_mod else bytes)
      rest

unfoldable pub pinned_bytes : State → ℕ
unfolding add_pinned
pinned_bytes s = add_pinned s.heap 0 s.all_blocks

-- What one loop of `trim` leaves: whether a free failed, the list, `all_blocks_` and the world.
pub record Trimmed (W : Type 0) : Type 0 where
  pub failed : Bool
  pub ids : List ℕ
  pub all : List (ℕ × ℕ)
  pub world : W

-- The tests of the two loops of `trim`.
abbrev pub unpinned : Block → Bool
unpinned b = b.pin_count == 0

abbrev pub unpinned_unused : Block → Bool
unpinned_unused b = (b.pin_count == 0) && not b.in_use

-- What the loop over the size classes leaves.
pub record TrimmedClasses (W : Type 0) : Type 0 where
  pub failed : Bool
  pub classes : List SizeClass
  pub all : List (ℕ × ℕ)
  pub world : W

module _ {W : Type 0} (f : Facade W) where
  -- A loop of `trim` over one list: `drop` is its test.
  unfoldable pub trim_list : (Block → Bool) → State → List ℕ → List (ℕ × ℕ) → W → Trimmed W
  unfolding free_block
  trim_list drop s [] all w = record { failed = false; ids = []; all = all; world = w }
  trim_list drop s (i ∷ is) all w =
      let (status, w') = free_block f (s.heap i).ptr s w in
      let dropped = trim_list drop s is (erase (s.heap i).ptr all) w' in
      let kept = trim_list drop s is all w in
      if drop (s.heap i)
      then if status == 0
        then dropped
        else record { failed = true; ids = i ∷ is; all = all; world = w' }
      else record kept { ids = i ∷ kept.ids }

  -- The outer loop over the size classes; a failure ends it.
  unfoldable pub trim_classes : State → List SizeClass → List (ℕ × ℕ) → W → TrimmedClasses W
  unfolding trim_list
  trim_classes s [] all w = record { failed = false; classes = []; all = all; world = w }
  trim_classes s (cls ∷ rest) all w =
      let t = trim_list unpinned s cls.free_blocks all w in
      let cls' : SizeClass = record cls { free_blocks = t.ids } in
      let later = trim_classes s rest t.all t.world in
      if t.failed
      then record { failed = true; classes = cls' ∷ rest; all = t.all; world = t.world }
      else record later { classes = cls' ∷ later.classes }

  unfoldable pub trim_locked : State → W → Result ℕ × State × W
  unfolding trim_classes trim_list
  trim_locked s w =
      let c = trim_classes s s.size_classes s.all_blocks w in
      let s1 : State = record s { size_classes = c.classes; all_blocks = c.all } in
      let l = trim_list unpinned_unused s1 s1.large_blocks s1.all_blocks c.world in
      let s2 : State = record s1 { large_blocks = l.ids; all_blocks = l.all } in
      if c.failed
      then (err trim_class, s1, c.world)
      else (if l.failed then err trim_large else ok 0, s2, l.world)
