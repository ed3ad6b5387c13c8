-- ===== src/Pool/Refinement.antt =====
-- The pool of src/reusable_memory_pool.cc refines an allocator that counts owners by address.
use infini_rt.Base.{ℕ, zero, suc, ◌≡◌, refl, List, [], ◌∷◌, arith, Bool, false, true, subst, ap}
use infini_rt.Device.{Device}
use infini_rt.Facade.{Facade, Allocates}
use infini_rt.Pool.Machine.{State, ok}
use infini_rt.Pool.Allocate.{allocate_impl}
use infini_rt.Pool.Release.{deallocate, retain_allocation}
use infini_rt.Pool.Entry.{guarded, allocate, allocate_exact, create}
use infini_rt.Pool.Guarded.{
  guarded-lift, allocate-Allocated, allocate_exact-Allocated, trim-TrimmedTo,
}
use infini_rt.Pool.Pinning.{lease_at}
use infini_rt.Pool.Reach.{
  Machine, Call, allocates, allocates_exact, deallocates, retains, begins, commits, cancels,
  captures, trims, lease_ends, step, Allowed, Run, here, next,
}
use infini_rt.Pool.Sound.{IsSound, Run-IsSound, started-IsSound}
use infini_rt.Pool.Lifetime.{new_machine, create-ok}
use infini_rt.Pool.Owners.{
  owners, Event, keeps, Ledger, granted, released, retained, Grants-Ledger, deallocate-Ledger,
  retain_allocation-Ledger,
}
use infini_rt.Pool.Keeping.{
  begin-Ledger, commit-Ledger, cancel-Ledger, capture-Ledger, release_frozen-Ledger, trim-Ledger,
}

-- What the ledger can come to, by events, the last one first.
pub data History (before : ℕ → ℕ) : List Event → (ℕ → ℕ) → Type 0 where
  start : History before [] before
  entry :
      {events : List Event} {now later : ℕ → ℕ}
      → History before events now
      → (e : Event) → Ledger e now later
      → History before (e ∷ events) later

module _ {W : Type 0} (f : Facade W) where
  -- The event of a call, from what the call returns.
  abbrev pub event_of : Call → Machine W → Event
  event_of (allocates tid size) m = granted (allocate f tid size m.state m.world).0
  event_of (allocates_exact tid size) m = granted (allocate_exact f tid size m.state m.world).0
  event_of (deallocates p) m = released p (deallocate p m.state).0
  event_of (retains p) m = retained p (retain_allocation p m.state).0
  event_of _ m = keeps

  abbrev pub events_of : {m n : Machine W} → Run f m n → List Event
  events_of here = []
  events_of (next {n} r c a) = event_of c n ∷ events_of r

  module _ (laws : Allocates f) where
    allocate_zero-Ledger :
        (tid : ℕ) (is_exact : Bool) (s : State) (w : W)
        → let r = guarded f s.device (allocate_impl f tid 0 is_exact s) s w in
          Ledger (granted r.0) (owners s) (owners r.1)
    unfolding allocate_impl
    allocate_zero-Ledger tid false s w =
        guarded-lift f laws (λ r s' w'. Ledger (granted r) (owners s) (owners s'))
          (λ r s' w1 w2 u h. h) s.device (allocate_impl f tid 0 false s) s w (λ w1 u q. refl)
          (λ q. refl)
    allocate_zero-Ledger tid true s w =
        guarded-lift f laws (λ r s' w'. Ledger (granted r) (owners s) (owners s'))
          (λ r s' w1 w2 u h. h) s.device (allocate_impl f tid 0 true s) s w (λ w1 u q. refl)
          (λ q. refl)

    step-Ledger :
        (c : Call) (m : Machine W)
        → Allowed f c m
        → IsSound f laws m
        → Ledger (event_of c m) (owners m.state) (owners (step f c m).state)
    unfolding step
    step-Ledger (allocates tid zero) m a v =
        unfold allocate in allocate_zero-Ledger tid false m.state m.world
    step-Ledger (allocates tid (suc n)) m a v =
        let (_, _, g) =
          allocate-Allocated f laws m.state m.world v.well_formed v.backed tid (suc n)
            (omega arith) in
        Grants-Ledger m.state v.well_formed tid (suc n) _ _ _ g
    step-Ledger (allocates_exact tid zero) m a v =
        unfold allocate_exact in allocate_zero-Ledger tid true m.state m.world
    step-Ledger (allocates_exact tid (suc n)) m a v =
        let (_, _, g) =
          allocate_exact-Allocated f laws m.state m.world v.well_formed v.backed tid (suc n)
            (omega arith) in
        Grants-Ledger m.state v.well_formed tid (suc n) _ _ _ g
    step-Ledger (deallocates p) m a v = deallocate-Ledger m.state v.well_formed p
    step-Ledger (retains p) m a v = retain_allocation-Ledger m.state v.well_formed p a
    step-Ledger (begins tid) m a v = begin-Ledger tid m.state
    step-Ledger (commits tid) m a v = commit-Ledger tid m.state
    step-Ledger (cancels tid) m a v = cancel-Ledger tid m.state
    step-Ledger (captures tid p) m a v = capture-Ledger tid p m.state
    step-Ledger trims m a v =
        let (_, _, t, _) = trim-TrimmedTo f laws m.state m.world v.well_formed v.backed in
        trim-Ledger f laws m.state _ _ v.well_formed t
    step-Ledger (lease_ends k) m a v = release_frozen-Ledger (lease_at k m.leases) m.state

    Run-History :
        {m n : Machine W}
        → IsSound f laws m
        → (r : Run f m n) → History (owners m.state) (events_of r) (owners n.state)
    Run-History v here = start
    Run-History v (next {n} r c a) =
        entry (Run-History v r) (event_of c n) (step-Ledger c n a (Run-IsSound f laws v r))

    -- The pool refines a ledger that counts owners by address. Whatever allowed calls of any
    -- threads and whatever ends of leases follow the construction of a pool, the owner counts are
    -- those that an empty ledger comes to by the events that the calls return, one entry for each
    -- call: an allocation that returns an address gives its one owner to an address, not null,
    -- that had none; a release that does not throw takes one owner from an address that had one;
    -- a retention that does not throw adds one; every other call, an error, a trim, a pin
    -- transaction, a capture and the end of a lease included, leaves all counts. An owner is only
    -- added to a block that has fewer than 2 ^ 64 - 1 of them.
    pub create-Run-History :
        (device : Device) (w w' : W) (s : State) {n : Machine W}
        → create f device w ≡ (ok s, w')
        → (r : Run f (new_machine s w') n) → History (λ q. 0) (events_of r) (owners n.state)
    create-Run-History device w w' s {n} h r =
        let (stream, allocation_stream, e) = create-ok f laws device w w' s h in
        subst (λ (b : ℕ → ℕ). History b (events_of r) (owners n.state)) (ap owners e)
          (Run-History (rw e (started-IsSound f laws device stream allocation_stream w')) r)
