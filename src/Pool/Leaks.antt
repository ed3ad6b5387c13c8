-- ===== src/Pool/Leaks.antt =====
-- A pool that nobody uses any more can be emptied by `trim` (src/reusable_memory_pool.cc).
use infini_rt.Base.{ℕ, ◌≡◌, [], false}
use infini_rt.Device.{Device}
use infini_rt.Facade.{Facade, Allocates}
use infini_rt.Pool.Reach.{Machine}
use infini_rt.Pool.Owners.{owners}

module _ {W : Type 0} (f : Facade W) (laws : Allocates f) where
  -- No owner, no lease and no pin transaction is left.
  pub record IsIdle (m : Machine W) : Type 0 where
    pub no_owners : (q : ℕ) → owners m.state q ≡ 0
    pub no_leases : m.leases ≡ []
    pub no_transaction : m.state.pinned_mode ≡ false
