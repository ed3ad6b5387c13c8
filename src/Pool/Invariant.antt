-- ===== src/Pool/Invariant.antt =====
-- The well-formedness of a pool, and the steps that every operation is made of.
use infini_rt.Base.{
  ℕ, ◌<◌, ◌≡◌, ◌≢◌, refl, ltb, ◌==◌, if◌then◌else◌, List, arith, length, some, Bool, true, false,
  count, erase_first, count-erase_first, Option,
}
use infini_rt.Pool.Machine.{
  size_class, Block, State, free_of, block_size_of, set_free, update, find,
}
use infini_rt.Pool.Classes.{free_of-set_free, block_size_of-set_free, length-set_free}
use infini_rt.Pool.Allocate.{freeze_for_capture, reuse, reuse_class}

-- What holds of a block that `all_blocks_` has under the address `p`.
pub record IsOwned (s : State) (p i : ℕ) : Type 0 where
  pub at_ptr : (s.heap i).ptr ≡ p
  pub not_null : p ≢ 0
  pub made : i < s.next_block
  pub counted : (s.heap i).in_use ≡ ltb 0 (s.heap i).use_count
  pub in_range :
      (s.heap i).kind ≡ size_class
      → ((s.heap i).class_index < length s.size_classes)
        × ((s.heap i).size ≡ block_size_of s.size_classes (s.heap i).class_index)
  pub kept :
      (s.heap i).kind ≡ size_class
      → (s.heap i).in_use ≡ false
      → count i (free_of s.size_classes (s.heap i).class_index) ≡ 1
  pub listed : (s.heap i).kind ≢ size_class → count i s.large_blocks ≡ 1

pub record IsFree (s : State) (c i : ℕ) : Type 0 where
  pub idle : (s.heap i).in_use ≡ false
  pub of_class : (s.heap i).kind ≡ size_class
  pub at_class : (s.heap i).class_index ≡ c
  pub registered : find (s.heap i).ptr s.all_blocks ≡ some i

pub record Inv (s : State) : Type 0 where
  pub owned : (p i : ℕ) → find p s.all_blocks ≡ some i → IsOwned s p i
  pub free : (c i : ℕ) → 0 < count i (free_of s.size_classes c) → IsFree s c i
  pub large :
      (i : ℕ)
      → 0 < count i s.large_blocks
      → ((s.heap i).kind ≢ size_class) × (find (s.heap i).ptr s.all_blocks ≡ some i)

pub freeze-Inv : (tid i : ℕ) (s : State) → Inv s → Inv (freeze_for_capture tid i s)
unfolding freeze_for_capture
freeze-Inv tid i s v = record {
  owned = λ p j e.
      let o = v.owned p j (ground arith) in
      record {
        at_ptr = ground arith;
        not_null = o.not_null;
        made = ground arith;
        counted = ground arith;
        in_range = λ k. ground (arith, o.in_range);
        kept = λ k u. ground (arith, o.kept);
        listed = λ k. ground (arith, o.listed);
      };
  free = λ c j h.
      let o = v.free c j (ground arith) in
      record {
        idle = ground arith;
        of_class = ground arith;
        at_class = ground arith;
        registered = ground arith;
      };
  large = λ j h. let o = v.large j (ground arith) in (ground arith, ground arith);
}

-- A free block of `large_blocks_` is taken.
pub reuse-Inv : (tid i : ℕ) (s : State) → 0 < count i s.large_blocks → Inv s → Inv (reuse tid i s)
unfolding reuse
reuse-Inv tid i s here v = record {
  owned = λ p j e.
      let o = v.owned p j (ground arith) in
      record {
        at_ptr = ground arith;
        not_null = o.not_null;
        made = ground arith;
        counted = ground arith;
        in_range = λ k. ground (arith, o.in_range);
        kept = λ k u. ground (arith, o.kept);
        listed = λ k. ground (arith, o.listed);
      };
  free = λ c j h.
      let o = v.free c j (ground arith) in
      let l = v.large i here in
      record {
        idle = ground arith;
        of_class = ground arith;
        at_class = ground arith;
        registered = ground arith;
      };
  large = λ j h. let o = v.large j (ground arith) in (ground arith, ground arith);
}

-- A block `i` of class `c` becomes used, as `b`, and leaves the free list of its class.
module _ (s : State) (c i : ℕ) (b : Block) (ids : List ℕ) (v : Inv s)
    (registered : find (s.heap i).ptr s.all_blocks ≡ some i)
    (of_class : (s.heap i).kind ≡ size_class) (at_class : (s.heap i).class_index ≡ c)
    (same_ptr : b.ptr ≡ (s.heap i).ptr) (same_kind : b.kind ≡ (s.heap i).kind)
    (same_class : b.class_index ≡ (s.heap i).class_index) (same_size : b.size ≡ (s.heap i).size)
    (used : b.in_use ≡ true) (counted : 0 < b.use_count)
    (left : (j : ℕ)
      → count j ids ≡ (if j == i then 0 else count j (free_of s.size_classes c))) where
  abbrev pub taken : State
  taken = record s { heap = update s.heap i b; size_classes = set_free s.size_classes c ids }

  take-Owned : (p j : ℕ) → find p s.all_blocks ≡ some j → IsOwned taken p j
  take-Owned p j e =
      let o = v.owned p j e in
      let oi = v.owned (s.heap i).ptr i registered in
      record {
        at_ptr = ground arith;
        not_null = o.not_null;
        made = o.made;
        counted = ground arith;
        in_range = λ k. ground (
          arith,
          o.in_range,
          oi.in_range of_class,
          length-set_free s.size_classes c ids,
          block_size_of-set_free s.size_classes c (s.heap j).class_index ids,
        );
        kept = λ k u.
            ground
              (arith, o.kept, left j, free_of-set_free s.size_classes c (s.heap j).class_index ids);
        listed = λ k. ground (arith, o.listed);
      }

  take-was :
      (d j : ℕ)
      → 0 < count j (free_of taken.size_classes d)
      → 0 < count j (free_of s.size_classes d)
  take-was d j h = ground (arith, left j, free_of-set_free s.size_classes c d ids)

  take-other : (d j : ℕ) → 0 < count j (free_of taken.size_classes d) → j ≢ i
  take-other d j h e =
      let o = v.free d j (take-was d j h) in
      let oi = v.owned (s.heap i).ptr i registered in
      ground (arith, left j, oi.in_range of_class, free_of-set_free s.size_classes c d ids)

  take-Free : (d j : ℕ) → 0 < count j (free_of taken.size_classes d) → IsFree taken d j
  take-Free d j h =
      let o = v.free d j (take-was d j h) in
      record {
        idle = ground (arith, take-other d j h);
        of_class = ground (arith, take-other d j h);
        at_class = ground (arith, take-other d j h);
        registered = ground (arith, take-other d j h);
      }

  pub take-Inv : Inv taken
  take-Inv = record {
    owned = take-Owned;
    free = take-Free;
    large = λ j h. let o = v.large j h in (ground arith, ground arith);
  }

-- A free block of a size class is taken, and leaves its free list.
pub reuse_class-Inv :
    (tid c i : ℕ) (s : State)
    → 0 < count i (free_of s.size_classes c)
    → Inv s
    → Inv (reuse_class tid c i s)
unfolding reuse_class
reuse_class-Inv tid c i s here v =
    let s1 = freeze_for_capture tid i s in
    let fr = v.free c i here in
    let oi = v.owned (s.heap i).ptr i fr.registered in
    take-Inv s1 c i _ (erase_first i (free_of s1.size_classes c)) (freeze-Inv tid i s v)
      (ground arith) (ground arith) (ground arith) refl refl refl refl refl (omega arith)
      (λ j. ground (arith, oi.kept, count-erase_first j i (free_of s1.size_classes c)))

-- A block changes in its counters only.
pub touch-Inv :
    (s : State) (i : ℕ) (b : Block)
    → b.ptr ≡ (s.heap i).ptr
    → b.kind ≡ (s.heap i).kind
    → b.class_index ≡ (s.heap i).class_index
    → b.size ≡ (s.heap i).size
    → b.in_use ≡ (s.heap i).in_use
    → ltb 0 b.use_count ≡ ltb 0 (s.heap i).use_count
    → Inv s
    → Inv (record s { heap = update s.heap i b })
touch-Inv s i b e1 e2 e3 e4 e5 e6 v = record {
  owned = λ p j e.
      let o = v.owned p j e in
      record {
        at_ptr = ground arith;
        not_null = o.not_null;
        made = o.made;
        counted = ground arith;
        in_range = λ k. ground (arith, o.in_range);
        kept = λ k u. ground (arith, o.kept);
        listed = λ k. ground (arith, o.listed);
      };
  free = λ c j h.
      let o = v.free c j h in
      record {
        idle = ground arith;
        of_class = ground arith;
        at_class = ground arith;
        registered = ground arith;
      };
  large = λ j h. let o = v.large j h in (ground arith, ground arith);
}

-- Nothing of the invariant reads the fields of the pin transaction.
pub pin_fields-Inv :
    (s : State) (m : Bool) (o : Option ℕ) (g : ℕ) (fs set : List ℕ)
    → Inv s
    → Inv (record s {
      pinned_mode = m;
      pin_owner = o;
      capture_generation = g;
      capture_frozen_blocks = fs;
      capture_frozen_block_set = set;
    })
pin_fields-Inv s m o g fs set v = record {
  owned = λ p j e.
      let o = v.owned p j e in
      record {
        at_ptr = o.at_ptr;
        not_null = o.not_null;
        made = o.made;
        counted = o.counted;
        in_range = o.in_range;
        kept = o.kept;
        listed = o.listed;
      };
  free = λ c j h.
      let o = v.free c j h in
      record {
        idle = o.idle;
        of_class = o.of_class;
        at_class = o.at_class;
        registered = o.registered;
      };
  large = v.large;
}
