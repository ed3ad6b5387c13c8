-- ===== src/Pool/Grants.antt =====
-- What an allocation gives: a block with room, one owner, and an address that nobody held.
use infini_rt.Base.{
  ℕ, ◌≤◌, ◌<◌, ◌≡◌, ◌≢◌, refl, List, [], ◌∷◌, arith, none, some, Bool, true, false, count, inl, inr,
  Option-cases, ==_ne, ==_refl,
}
use infini_rt.Facade.{Facade, Answers, Allocates}
use infini_rt.Pool.Machine.{Block, State, Error, Result, ok, err, find, find-emplace}
use infini_rt.Pool.Allocate.{
  enter_block, finish_growth, grow, new_entry, capturing, generation, reuse, reuse_class,
  find_block,
}
use infini_rt.Pool.Invariant.{Inv}
use infini_rt.Pool.Backing.{Backed, Answer, allocate_block-Answer}
use infini_rt.Pool.Growing.{IsNew}

pub record IsGranted (tid : ℕ) (s s' : State) (size p : ℕ) : Type 0 where
  pub block : ℕ
  pub not_null : p ≢ 0
  pub registered : find p s'.all_blocks ≡ some block
  pub used : (s'.heap block).in_use ≡ true
  pub one_owner : (s'.heap block).use_count ≡ 1
  pub roomy : size ≤ (s'.heap block).size
  -- The mark of the pin transaction that the calling thread is in.
  pub stamped : (s'.heap block).allocation_capture_generation ≡ generation tid s
  pub same_capture : capturing tid s' ≡ capturing tid s
  pub same_generation : s'.capture_generation ≡ s.capture_generation
  pub not_held : (j : ℕ) → find p s.all_blocks ≡ some j → (s.heap j).in_use ≡ false
  pub others :
      (q j : ℕ)
      → find q s.all_blocks ≡ some j
      → q ≢ p
      → (find q s'.all_blocks ≡ some j) × (s'.heap j ≡ s.heap j)
  pub no_more : (q j : ℕ) → find q s'.all_blocks ≡ some j → q ≢ p → find q s.all_blocks ≡ some j

-- A call that throws leaves every registered block as it was.
pub record IsRefused (s s' : State) : Type 0 where
  pub same_map : s'.all_blocks ≡ s.all_blocks
  pub same_large : s'.large_blocks ≡ s.large_blocks
  pub same_classes : s'.size_classes ≡ s.size_classes
  pub same_blocks : (q j : ℕ) → find q s.all_blocks ≡ some j → s'.heap j ≡ s.heap j

abbrev pub Grants : {W : Type 0} → ℕ → State → ℕ → Result ℕ × State × W → Type 0
Grants tid s size (ok p, s', w') = IsGranted tid s s' size p
Grants tid s size (err e, s', w') = IsRefused s s'

pub find_block-accepts :
    (test : Block → Bool) (heap : ℕ → Block) (is : List ℕ) (i : ℕ)
    → find_block test heap is ≡ some i
    → (0 < count i is) × (test (heap i) ≡ true)
unfolding find_block
find_block-accepts test heap [] i h = cc
find_block-accepts test heap (x ∷ xs) i h = ground (arith, find_block-accepts test heap xs i)

pub reuse-IsGranted :
    (tid i size : ℕ) (s : State)
    → find (s.heap i).ptr s.all_blocks ≡ some i
    → (s.heap i).in_use ≡ false
    → size ≤ (s.heap i).size
    → Inv s
    → IsGranted tid s (reuse tid i s) size (s.heap i).ptr
unfolding reuse
reuse-IsGranted tid i size s registered idle fits v =
    let oi = v.owned (s.heap i).ptr i registered in
    record {
      block = i;
      not_null = oi.not_null;
      registered = ground arith;
      used = ground arith;
      one_owner = ground arith;
      roomy = ground arith;
      stamped = ground arith;
      same_capture = ground arith;
      same_generation = ground arith;
      not_held = λ j e. ground arith;
      others = λ q j e ne. let o = v.owned q j e in (ground arith, ground arith);
      no_more = λ q j e ne. ground arith;
    }

pub reuse_class-IsGranted :
    (tid c i size : ℕ) (s : State)
    → find (s.heap i).ptr s.all_blocks ≡ some i
    → (s.heap i).in_use ≡ false
    → size ≤ (s.heap i).size
    → Inv s
    → IsGranted tid s (reuse_class tid c i s) size (s.heap i).ptr
unfolding reuse_class
reuse_class-IsGranted tid c i size s registered idle fits v =
    let g = reuse-IsGranted tid i size s registered idle fits v in
    record {
      block = g.block;
      not_null = g.not_null;
      registered = g.registered;
      used = g.used;
      one_owner = g.one_owner;
      roomy = g.roomy;
      stamped = g.stamped;
      same_capture = g.same_capture;
      same_generation = g.same_generation;
      not_held = g.not_held;
      others = g.others;
      no_more = g.no_more;
    }

module _ {W : Type 0} (f : Facade W) (laws : Allocates f) (tid : ℕ) (b : Block) (listed : Bool)
    (failure : Error) (s : State) (w : W) (new : IsNew b listed s) (one : b.use_count ≡ 1)
    (v : Inv s) (backed : Backed f laws s w) where
  enter_block-Grants :
      (status p : ℕ) (w' : W)
      → Answers laws.live w status p w'
      → Grants tid s b.size (enter_block f tid b listed failure s status p w')
  unfolding enter_block
  enter_block-Grants status p w' (inl (fine, not_null, unused, grown)) =
      let fresh : find p s.all_blocks ≡ none = elim (Option-cases (find p s.all_blocks)) [
        | inl missing ↦ missing
        | inr (i, e) ↦ absurd (ground (arith, backed p i e))
      ] in
      rw fine (record {
        block = s.next_block;
        not_null = not_null;
        registered = ground (arith, find-emplace p p s.next_block s.all_blocks fresh);
        used = ground (arith, new.used);
        one_owner = ground (arith, one);
        roomy = ground arith;
        stamped = ground arith;
        same_capture = ground arith;
        same_generation = ground arith;
        not_held = λ j e. ground arith;
        others = λ q j e ne.
            let o = v.owned q j e in
            (ground (arith, find-emplace q p s.next_block s.all_blocks fresh), ground arith);
        no_more = λ q j e ne. ground (arith, find-emplace q p s.next_block s.all_blocks fresh);
      })
  enter_block-Grants status p w' (inr (bad, null, same)) =
      rw (==_ne status 0 bad, null, ==_refl s.next_block)
        (record {
          same_map = refl;
          same_large = refl;
          same_classes = refl;
          same_blocks = λ q j e. let o = v.owned q j e in ground arith;
        })

  finish_growth-Grants :
      (r : Result (ℕ × ℕ) × W)
      → Answer f laws w r
      → Grants tid s b.size (finish_growth f tid b listed failure s r)
  unfolding finish_growth
  finish_growth-Grants (err e, w') a =
      unfold new_entry in
      record {
        same_map = refl;
        same_large = refl;
        same_classes = refl;
        same_blocks = λ q j e'. let o = v.owned q j e' in ground arith;
      }
  finish_growth-Grants (ok (status, p), w') a = enter_block-Grants status p w' a

  pub grow-Grants : Grants tid s b.size (grow f tid b listed failure s w)
  unfolding grow
  grow-Grants = finish_growth-Grants _ (allocate_block-Answer f laws b.size s w new.positive)
