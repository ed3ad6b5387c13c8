-- ===== src/Pool/Reach.antt =====
-- Every state that a pool can reach, by any calls of any threads and the ends of any leases.
use infini_rt.Base.{ℕ, ◌-◌, ◌<◌, ◌≡◌, List, some, u64_mod}
use infini_rt.Facade.{Facade}
use infini_rt.Pool.Machine.{State, find}
use infini_rt.Pool.Release.{deallocate, retain_allocation}
use infini_rt.Pool.Pin.{
  release_frozen_blocks, begin_pin_mode, commit_pin_mode, cancel_pin_mode, retain_for_capture,
}
use infini_rt.Pool.Entry.{allocate, allocate_exact, trim}
use infini_rt.Pool.Pinning.{leases_after, drop_at, lease_at}

-- A pool, the world under it, and the blocks of each lease that is alive.
pub record Machine (W : Type 0) : Type 0 where
  pub state : State
  pub world : W
  pub leases : List (List ℕ)

pub data Call : Type 0 where
  allocates : ℕ → ℕ → Call
  allocates_exact : ℕ → ℕ → Call
  deallocates : ℕ → Call
  retains : ℕ → Call
  begins : ℕ → Call
  commits : ℕ → Call
  cancels : ℕ → Call
  captures : ℕ → ℕ → Call
  trims : Call
  lease_ends : ℕ → Call

module _ {W : Type 0} (f : Facade W) where
  -- A call takes the thread that makes it first. What it returns or throws is dropped here.
  unfoldable pub step : Call → Machine W → Machine W
  step (allocates tid size) m =
      let (r, s, w) = allocate f tid size m.state m.world in record m { state = s; world = w }
  step (allocates_exact tid size) m =
      let (r, s, w) = allocate_exact f tid size m.state m.world in record m { state = s; world = w }
  step (deallocates p) m = record m { state = (deallocate p m.state).1 }
  step (retains p) m = record m { state = (retain_allocation p m.state).1 }
  step (begins tid) m = record m { state = (begin_pin_mode tid m.state).1 }
  step (commits tid) m =
      let (r, s) = commit_pin_mode tid m.state in
      record m { state = s; leases = leases_after r m.leases }
  step (cancels tid) m = record m { state = (cancel_pin_mode tid m.state).1 }
  step (captures tid p) m = record m { state = (retain_for_capture tid p m.state).1 }
  step trims m = let (r, s, w) = trim f m.state m.world in record m { state = s; world = w }
  step (lease_ends k) m = record m {
    state = release_frozen_blocks (lease_at k m.leases) m.state;
    leases = drop_at k m.leases;
  }

  -- The one bound: a block has fewer than 2 ^ 64 - 1 owners when one more is added.
  abbrev pub Allowed : Call → Machine W → Type 0
  Allowed (retains p) m =
      (i : ℕ) → find p m.state.all_blocks ≡ some i → (m.state.heap i).use_count < u64_mod - 1
  Allowed _ m = Unit {0}

  pub data Run (m : Machine W) : Machine W → Type 0 where
    here : Run m m
    next : {n : Machine W} → Run m n → (c : Call) → Allowed c n → Run m (step c n)
