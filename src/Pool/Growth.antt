-- ===== src/Pool/Growth.antt =====
-- A new block keeps the pool well formed, whether the backend gives memory or fails.
use infini_rt.Base.{
  ℕ, suc, ◌<◌, ◌≡◌, ◌≢◌, ltb, ◌==◌, if◌then◌else◌, [], ◌∷◌, ◌++◌, arith, length, none, some, Bool,
  true, false, count, count-append, Bool-cases, inl, inr, subst,
}
use infini_rt.Pool.Machine.{
  size_class, Block, State, free_of, block_size_of, update, find, emplace, find-emplace,
}
use infini_rt.Pool.Allocate.{new_entry}
use infini_rt.Pool.Invariant.{Inv, IsOwned, IsFree}

-- A block that no list or map mentions.
pub new_entry-Inv : (b : Block) (s : State) → Inv s → Inv (new_entry b s)
unfolding new_entry
new_entry-Inv b s v = record {
  owned = λ p j e.
      let o = v.owned p j e in
      record {
        at_ptr = ground arith;
        not_null = o.not_null;
        made = ground arith;
        counted = ground arith;
        in_range = λ k. ground (arith, o.in_range);
        kept = λ k u. ground (arith, o.kept);
        listed = λ k. ground (arith, o.listed);
      };
  free = λ c j h.
      let f = v.free c j h in
      let o = v.owned (s.heap j).ptr j f.registered in
      record {
        idle = ground arith;
        of_class = ground arith;
        at_class = ground arith;
        registered = ground arith;
      };
  large = λ j h.
      let l = v.large j h in let o = v.owned (s.heap j).ptr j l.1 in (ground arith, ground arith);
}

-- The new block is entered under a pointer that the pool does not hold.
module _ (s : State) (b : Block) (is_listed : Bool) (v : Inv s) (not_null : b.ptr ≢ 0)
    (fresh : find b.ptr s.all_blocks ≡ none) (used : b.in_use ≡ true) (counted : 0 < b.use_count)
    (of_class : b.kind ≡ size_class
      → (is_listed ≡ false)
        × (b.class_index < length s.size_classes)
        × (b.size ≡ block_size_of s.size_classes b.class_index))
    (of_list : b.kind ≢ size_class → is_listed ≡ true) where
  abbrev pub entered : State
  entered = record s {
    heap = update s.heap s.next_block b;
    next_block = suc s.next_block;
    all_blocks = emplace b.ptr s.next_block s.all_blocks;
    large_blocks = if is_listed then s.large_blocks ++ s.next_block ∷ [] else s.large_blocks;
  }

  large_new : count s.next_block s.large_blocks ≡ 0
  large_new = elim (Bool-cases (ltb 0 (count s.next_block s.large_blocks))) [
    | inl old ↦
        let l = v.large s.next_block (ground arith) in
        let o = v.owned (s.heap s.next_block).ptr s.next_block l.1 in ground arith
    | inr new ↦ ground arith
  ]

  enter-IsOwned : (p j : ℕ) → find p s.all_blocks ≡ some j → p ≢ b.ptr → IsOwned entered p j
  enter-IsOwned p j e ne =
      let o = v.owned p j e in
      record {
        at_ptr = ground arith;
        not_null = o.not_null;
        made = ground arith;
        counted = ground arith;
        in_range = λ k. ground (arith, o.in_range);
        kept = λ k u. ground (arith, o.kept);
        listed = λ k. ground (arith, o.listed, count-append j s.large_blocks (s.next_block ∷ []));
      }

  enter-new : (p : ℕ) → p ≡ b.ptr → IsOwned entered p s.next_block
  enter-new p e = record {
    at_ptr = ground arith;
    not_null = ground arith;
    made = ground arith;
    counted = ground arith;
    in_range = λ k. ground (arith, of_class);
    kept = λ k u. ground arith;
    listed = λ k.
        ground
          (arith, of_list, large_new, count-append s.next_block s.large_blocks (s.next_block ∷ []));
  }

  enter-all : (p j : ℕ) → find p entered.all_blocks ≡ some j → IsOwned entered p j
  enter-all p j e = elim (Bool-cases (p == b.ptr)) [
    | inl same ↦
        let e' : s.next_block ≡ j =
          ground (arith, find-emplace p b.ptr s.next_block s.all_blocks fresh) in
        subst (IsOwned entered p) e' (enter-new p (ground arith))
    | inr other ↦
        enter-IsOwned p j (ground (arith, find-emplace p b.ptr s.next_block s.all_blocks fresh))
          (ground arith)
  ]

  enter-free : (c j : ℕ) → 0 < count j (free_of s.size_classes c) → IsFree entered c j
  enter-free c j h =
      let f = v.free c j h in
      let o = v.owned (s.heap j).ptr j f.registered in
      record {
        idle = ground arith;
        of_class = ground arith;
        at_class = ground arith;
        registered =
            ground (arith, find-emplace (s.heap j).ptr b.ptr s.next_block s.all_blocks fresh);
      }

  enter-large :
      (j : ℕ)
      → 0 < count j entered.large_blocks
      → ((entered.heap j).kind ≢ size_class)
        × (find (entered.heap j).ptr entered.all_blocks ≡ some j)
  enter-large j h = elim (Bool-cases (j == s.next_block)) [
    | inl same ↦ (
      ground (arith, of_class, large_new),
      ground (arith, find-emplace b.ptr b.ptr s.next_block s.all_blocks fresh),
    )
    | inr old ↦
        let l = v.large j (ground (arith, count-append j s.large_blocks (s.next_block ∷ []))) in
        let o = v.owned (s.heap j).ptr j l.1 in
        (
          ground arith,
          ground (arith, find-emplace (s.heap j).ptr b.ptr s.next_block s.all_blocks fresh),
        )
  ]

  pub enter-Inv : Inv entered
  enter-Inv = record { owned = enter-all; free = enter-free; large = enter-large }
