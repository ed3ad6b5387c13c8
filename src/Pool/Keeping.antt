-- ===== src/Pool/Keeping.antt =====
-- The calls of src/reusable_memory_pool.cc that leave the owners alone: pin transactions, captures, the ends
-- of leases, and trims.
use infini_rt.Base.{ℕ, ◌≡◌, refl, ap, sym, List, [], ◌∷◌, arith, Option-cases, inl, inr}
use infini_rt.Facade.{Facade, Allocates}
use infini_rt.Pool.Machine.{State, Block, find}
use infini_rt.Pool.Allocate.{freeze_for_capture}
use infini_rt.Pool.Pin.{
  unpin, unpin_all, release_frozen_blocks, begin_pin_mode, commit_pin_mode, cancel_pin_mode,
  retain_for_capture,
}
use infini_rt.Pool.Invariant.{Inv}
use infini_rt.Pool.Trim.{IsTrim}
use infini_rt.Pool.Owners.{owners, keeps, Ledger, idle-owners}

-- A change that leaves the map and the counts alone.
same_counts :
    (s s' : State)
    → s'.all_blocks ≡ s.all_blocks
    → ((j : ℕ) → (s'.heap j).use_count ≡ (s.heap j).use_count)
    → Ledger keeps (owners s) (owners s')
same_counts s s' map counts q = elim (Option-cases (find q s.all_blocks)) [
  | inl missing ↦ rw (map, missing) refl
  | inr (j, here) ↦ rw (map, here) (counts j)
]

unpin_all-use_count :
    (is : List ℕ) (heap : ℕ → Block) (j : ℕ) → (unpin_all heap is j).use_count ≡ (heap j).use_count
unfolding unpin_all unpin
unpin_all-use_count [] heap j = refl
unpin_all-use_count (i ∷ is) heap j = ground (arith, unpin_all-use_count is (unpin heap i) j)

pub begin-Ledger : (tid : ℕ) (s : State) → Ledger keeps (owners s) (owners (begin_pin_mode tid s).1)
unfolding begin_pin_mode
begin-Ledger tid s = same_counts s (begin_pin_mode tid s).1 (ground arith) (λ j. ground arith)

pub commit-Ledger :
    (tid : ℕ) (s : State) → Ledger keeps (owners s) (owners (commit_pin_mode tid s).1)
unfolding commit_pin_mode
commit-Ledger tid s = same_counts s (commit_pin_mode tid s).1 (ground arith) (λ j. ground arith)

pub cancel-Ledger :
    (tid : ℕ) (s : State) → Ledger keeps (owners s) (owners (cancel_pin_mode tid s).1)
unfolding cancel_pin_mode
cancel-Ledger tid s =
    same_counts s (cancel_pin_mode tid s).1 (ground arith)
      (λ j. ground (arith, unpin_all-use_count s.capture_frozen_blocks s.heap j))

pub capture-Ledger :
    (tid p : ℕ) (s : State) → Ledger keeps (owners s) (owners (retain_for_capture tid p s).1)
unfolding retain_for_capture freeze_for_capture
capture-Ledger tid p s =
    same_counts s (retain_for_capture tid p s).1 (ground arith) (λ j. ground arith)

pub release_frozen-Ledger :
    (blocks : List ℕ) (s : State)
    → Ledger keeps (owners s) (owners (release_frozen_blocks blocks s))
unfolding release_frozen_blocks
release_frozen-Ledger blocks s =
    same_counts s (release_frozen_blocks blocks s) refl (λ j. unpin_all-use_count blocks s.heap j)

-- A trim drops entries of idle blocks only.
pub trim-Ledger :
    {W : Type 0} (f : Facade W) (laws : Allocates f) (s s' : State) (w' : W)
    → Inv s
    → IsTrim f laws s s' w'
    → Ledger keeps (owners s) (owners s')
trim-Ledger f laws s s' w' v t q = elim (Option-cases (find q s.all_blocks)) [
  | inl missing ↦ elim (Option-cases (find q s'.all_blocks)) [
    | inl missing' ↦ rw (missing', missing) refl
    | inr (j, there) ↦ absurd (ground (arith, t.old q j there))
  ]
  | inr (j, here) ↦ elim (t.gone q j here) [
    | inl there ↦ rw (there, here) (ap (λ (b : Block). b.use_count) (t.same_heap j))
    | inr (gone, _, idle, _) ↦ rw (gone, here) (sym (idle-owners s v q j here idle))
  ]
]
