-- ===== src/Pool/Pinning.antt =====
-- The account of the pins: a block's `pin_count` is the number of leases and transactions that hold it.
use infini_rt.Base.{
  ℕ, zero, suc, ◌+◌, ◌≤◌, ◌<◌, ◌≡◌, refl, if◌then◌else◌, List, ◌∷◌, [], arith, ◌&&◌, not, none,
  some, Option, Bool, false, Bool-cases, Option-cases, inl, inr, count, count-append, u64_mod,
}
use infini_rt.Pool.Machine.{State, Block, Result, ok, err, find}
use infini_rt.Pool.Allocate.{capturing, owns, freeze_for_capture}
use infini_rt.Pool.Pin.{
  unpin, unpin_all, release_frozen_blocks, begin_pin_mode, commit_pin_mode, cancel_pin_mode,
  retain_for_capture,
}
use infini_rt.Pool.Invariant.{Inv}

-- How often a block stands in the leases.
abbrev pub count_all : ℕ → List (List ℕ) → ℕ
count_all j [] = 0
count_all j (l ∷ ls) = count j l + count_all j ls

abbrev pub flag : Bool → ℕ
flag b = if b then 1 else 0

-- `bounded` is why no pin count wraps: a block is pinned once in each generation at most.
pub record PinInv (s : State) (leases : List (List ℕ)) : Type 0 where
  pub frozen_once : (j : ℕ) → count j s.capture_frozen_blocks ≤ 1
  pub same_set : (j : ℕ) → count j s.capture_frozen_blocks ≡ count j s.capture_frozen_block_set
  pub idle_empty :
      s.pinned_mode ≡ false → (s.capture_frozen_blocks ≡ []) × (s.capture_frozen_block_set ≡ [])
  pub bounded : (j : ℕ) → count_all j leases + flag s.pinned_mode ≤ s.capture_generation
  pub small : s.capture_generation < u64_mod
  pub made : (j : ℕ) → s.next_block ≤ j → count_all j leases + count j s.capture_frozen_blocks ≡ 0
  pub pins : (j : ℕ) → (s.heap j).pin_count ≡ count_all j leases + count j s.capture_frozen_blocks
  pub held : (j : ℕ) → 0 < (s.heap j).pin_count → find (s.heap j).ptr s.all_blocks ≡ some j

-- A step that leaves the pins and the transaction alone.
pub record SamePins (s s' : State) : Type 0 where
  pub mode : s'.pinned_mode ≡ s.pinned_mode
  pub generation : s'.capture_generation ≡ s.capture_generation
  pub frozen : s'.capture_frozen_blocks ≡ s.capture_frozen_blocks
  pub frozen_set : s'.capture_frozen_block_set ≡ s.capture_frozen_block_set
  pub next : s.next_block ≤ s'.next_block
  pub pins : (j : ℕ) → (s'.heap j).pin_count ≡ (s.heap j).pin_count
  pub keeps :
      (j : ℕ)
      → 0 < (s.heap j).pin_count
      → find (s.heap j).ptr s.all_blocks ≡ some j
      → find (s'.heap j).ptr s'.all_blocks ≡ some j

pub SamePins-PinInv :
    (s s' : State) (ls : List (List ℕ)) → SamePins s s' → PinInv s ls → PinInv s' ls
SamePins-PinInv s s' ls e v = record {
  frozen_once = λ j. rw e.frozen (v.frozen_once j);
  same_set = λ j. rw (e.frozen, e.frozen_set) (v.same_set j);
  idle_empty = λ i. rw (e.frozen, e.frozen_set) (v.idle_empty (ground arith));
  bounded = λ j. rw (e.mode, e.generation) (v.bounded j);
  small = rw e.generation v.small;
  made = λ j h. rw e.frozen (v.made j (omega arith));
  pins = λ j. rw e.frozen (ground (arith, v.pins j, e.pins j));
  held = λ j h.
      let h' : 0 < (s.heap j).pin_count = ground (arith, e.pins j) in e.keeps j h' (v.held j h');
}

pub freeze-PinInv :
    (tid i : ℕ) (s : State) (ls : List (List ℕ))
    → i < s.next_block
    → find (s.heap i).ptr s.all_blocks ≡ some i
    → PinInv s ls
    → PinInv (freeze_for_capture tid i s) ls
unfolding freeze_for_capture
freeze-PinInv tid i s ls here registered v = record {
  frozen_once = λ j.
      ground
        (arith, v.frozen_once j, v.same_set j, count-append j s.capture_frozen_blocks (i ∷ []));
  same_set = λ j. ground (arith, v.same_set j, count-append j s.capture_frozen_blocks (i ∷ []));
  idle_empty = λ e. ground (arith, v.idle_empty);
  bounded = λ j. ground (arith, v.bounded j);
  small = ground (arith, v.small);
  made = λ j h. ground (arith, v.made j, count-append j s.capture_frozen_blocks (i ∷ []));
  pins = λ j. ground (
    arith,
    v.pins j,
    v.bounded j,
    v.same_set j,
    v.small,
    count-append j s.capture_frozen_blocks (i ∷ []),
  );
  held = λ j h. ground (arith, v.held j);
}

unpin_all-pins :
    (is : List ℕ) (heap : ℕ → Block) (j : ℕ)
    → count j is ≤ (heap j).pin_count
    → (unpin_all heap is j).pin_count + count j is ≡ (heap j).pin_count
unfolding unpin_all
unpin_all-pins [] heap j h = omega arith
unpin_all-pins (i ∷ is) heap j h = ground (arith, unpin_all-pins is (unpin heap i) j)

unpin_all-ptr :
    (is : List ℕ) (heap : ℕ → Block) (j : ℕ)
    → ((unpin_all heap is j).ptr ≡ (heap j).ptr)
      × ((unpin_all heap is j).pin_count ≤ (heap j).pin_count)
unfolding unpin_all
unpin_all-ptr [] heap j = (refl, omega arith)
unpin_all-ptr (i ∷ is) heap j =
    let r = unpin_all-ptr is (unpin heap i) j in (ground (arith, r.0), ground (arith, r.1))

unpin_all-held :
    (is : List ℕ) (s : State) (j : ℕ)
    → ((k : ℕ) → 0 < (s.heap k).pin_count → find (s.heap k).ptr s.all_blocks ≡ some k)
    → 0 < (unpin_all s.heap is j).pin_count
    → find (unpin_all s.heap is j).ptr s.all_blocks ≡ some j
unpin_all-held is s j held h =
    let r = unpin_all-ptr is s.heap j in rw r.0 (held j (omega (arith, r.1)))

pub begin-PinInv :
    (tid : ℕ) (s : State) (ls : List (List ℕ)) → PinInv s ls → PinInv (begin_pin_mode tid s).1 ls
unfolding begin_pin_mode
begin-PinInv tid s ls v = record {
  frozen_once = λ j. ground (arith, v.frozen_once j);
  same_set = λ j. ground (arith, v.same_set j);
  idle_empty = λ e. ground (arith, v.idle_empty);
  bounded = λ j. ground (arith, v.bounded j, v.small);
  small = ground (arith, v.small);
  made = λ j h. ground (arith, v.made j);
  pins = λ j. ground (arith, v.pins j);
  held = λ j h. ground (arith, v.held j);
}

-- A committed transaction hands its blocks to a lease.
abbrev pub leases_after : Result (Option (List ℕ)) → List (List ℕ) → List (List ℕ)
leases_after (ok none) ls = ls
leases_after (ok (some l)) ls = l ∷ ls
leases_after (err e) ls = ls

pub commit-PinInv :
    (tid : ℕ) (s : State) (ls : List (List ℕ))
    → PinInv s ls
    → PinInv (commit_pin_mode tid s).1 (leases_after (commit_pin_mode tid s).0 ls)
unfolding commit_pin_mode
commit-PinInv tid s ls v = elim (Bool-cases s.pinned_mode) [
  | inr idle ↦ simp idle v
  | inl active ↦ elim (Bool-cases (owns tid s.pin_owner)) [
    | inr other ↦ simp (active, other) v
    | inl own ↦
        simp (active, own)
          (record {
            frozen_once = λ j. omega arith;
            same_set = λ j. refl;
            idle_empty = λ e. (refl, refl);
            bounded = λ j. ground (arith, v.bounded j, v.frozen_once j);
            small = v.small;
            made = λ j h. ground (arith, v.made j);
            pins = λ j. ground (arith, v.pins j);
            held = v.held;
          })
  ]
]

pub cancel-PinInv :
    (tid : ℕ) (s : State) (ls : List (List ℕ)) → PinInv s ls → PinInv (cancel_pin_mode tid s).1 ls
unfolding cancel_pin_mode
cancel-PinInv tid s ls v = elim (Bool-cases (s.pinned_mode && not (owns tid s.pin_owner))) [
  | inl foreign ↦ rw foreign v
  | inr own ↦ rw own (record {
    frozen_once = λ j. omega arith;
    same_set = λ j. refl;
    idle_empty = λ e. (refl, refl);
    bounded = λ j. ground (arith, v.bounded j);
    small = v.small;
    made = λ j h. ground (arith, v.made j);
    pins = λ j. ground (arith, v.pins j, unpin_all-pins s.capture_frozen_blocks s.heap j);
    held = λ j h. unpin_all-held s.capture_frozen_blocks s j v.held h;
  })
]

-- The end of the lease at place `k`.
pub drop_at : ℕ → List (List ℕ) → List (List ℕ)
drop_at k [] = []
drop_at zero (l ∷ ls) = ls
drop_at (suc k) (l ∷ ls) = l ∷ drop_at k ls

pub lease_at : ℕ → List (List ℕ) → List ℕ
lease_at k [] = []
lease_at zero (l ∷ ls) = l
lease_at (suc k) (l ∷ ls) = lease_at k ls

count_all-drop_at :
    (j k : ℕ) (ls : List (List ℕ))
    → count_all j ls ≡ count j (lease_at k ls) + count_all j (drop_at k ls)
unfolding drop_at lease_at
count_all-drop_at j k [] = omega arith
count_all-drop_at j zero (l ∷ ls) = omega arith
count_all-drop_at j (suc k) (l ∷ ls) = omega (arith, count_all-drop_at j k ls)

pub release-PinInv :
    (k : ℕ) (s : State) (ls : List (List ℕ))
    → PinInv s ls
    → PinInv (release_frozen_blocks (lease_at k ls) s) (drop_at k ls)
unfolding release_frozen_blocks
release-PinInv k s ls v = record {
  frozen_once = v.frozen_once;
  same_set = v.same_set;
  idle_empty = v.idle_empty;
  bounded = λ j. omega (arith, v.bounded j, count_all-drop_at j k ls);
  small = v.small;
  made = λ j h. omega (arith, v.made j h, count_all-drop_at j k ls);
  pins = λ j. omega (
    arith,
    v.pins j,
    count_all-drop_at j k ls,
    unpin_all-pins (lease_at k ls) s.heap j (omega (arith, v.pins j, count_all-drop_at j k ls)),
  );
  held = λ j h. unpin_all-held (lease_at k ls) s j v.held h;
}

pub retain_for_capture-PinInv :
    (tid p : ℕ) (s : State) (ls : List (List ℕ))
    → Inv s
    → PinInv s ls
    → PinInv (retain_for_capture tid p s).1 ls
unfolding retain_for_capture
retain_for_capture-PinInv tid p s ls inv v = elim (Bool-cases (capturing tid s)) [
  | inr inactive ↦ rw inactive v
  | inl active ↦ elim (Option-cases (find p s.all_blocks)) [
    | inl missing ↦ rw (active, missing) v
    | inr (i, e) ↦
        rw (active, e)
          (freeze-PinInv tid i s ls (inv.owned p i e).made
            (ground (arith, (inv.owned p i e).at_ptr)) v)
  ]
]
