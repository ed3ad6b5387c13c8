-- ===== src/Pool/Sound.antt =====
-- The invariant of every reachable state of a pool.
use infini_rt.Base.{ℕ, zero, suc, ◌≡◌, refl, List, ◌∷◌, [], arith}
use infini_rt.Device.{Device}
use infini_rt.Facade.{Facade, Allocates}
use infini_rt.Pool.Machine.{initial_classes, SizeClass, free_of}
use infini_rt.Pool.Release.{deallocate, retain_allocation}
use infini_rt.Pool.Pin.{
  release_frozen_blocks, begin_pin_mode, commit_pin_mode, cancel_pin_mode, retain_for_capture,
}
use infini_rt.Pool.Entry.{initial_state}
use infini_rt.Pool.Invariant.{Inv}
use infini_rt.Pool.Reuse.{
  deallocate-Inv, retain_allocation-Inv, begin-Inv, commit-Inv, cancel-Inv, retain_for_capture-Inv,
  release_frozen-Inv,
}
use infini_rt.Pool.Backing.{Backed}
use infini_rt.Pool.Guarded.{trim-TrimmedTo}
use infini_rt.Pool.Pinning.{
  PinInv, SamePins-PinInv, begin-PinInv, commit-PinInv, cancel-PinInv, release-PinInv,
  retain_for_capture-PinInv, lease_at,
}
use infini_rt.Pool.Reach.{
  Machine, Call, allocates, allocates_exact, deallocates, retains, begins, commits, cancels,
  captures, trims, lease_ends, step, Allowed, Run, here, next,
}
use infini_rt.Pool.Frames.{
  keep_map, deallocate-SamePins, retain-SamePins, same_maps, trim-PinInv, allocate-PinInv,
  allocate-Inv, allocate_exact-Inv,
}

abbrev AllEmpty : List SizeClass → Type 0
AllEmpty [] = Unit
AllEmpty (x ∷ xs) = (x.free_blocks ≡ []) × AllEmpty xs

free_of-empty : (c : ℕ) (cs : List SizeClass) → AllEmpty cs → free_of cs c ≡ []
free_of-empty c [] h = refl
free_of-empty zero (x ∷ xs) h = h.0
free_of-empty (suc c) (x ∷ xs) h = free_of-empty c xs h.1

module _ {W : Type 0} (f : Facade W) (laws : Allocates f) where
  pub record IsSound (m : Machine W) : Type 0 where
    pub well_formed : Inv m.state
    pub backed : Backed f laws m.state m.world
    pub pinned : PinInv m.state m.leases

  pub step-IsSound : (c : Call) (m : Machine W) → Allowed f c m → IsSound m → IsSound (step f c m)
  unfolding step
  step-IsSound (allocates tid size) m a r =
      let (v, b) = allocate-Inv f laws tid size m.state m.world r.well_formed r.backed in
      record {
        well_formed = v;
        backed = b;
        pinned =
            (allocate-PinInv f laws tid size m.state m.world m.leases r.well_formed r.backed
              r.pinned).0;
      }
  step-IsSound (allocates_exact tid size) m a r =
      let (v, b) = allocate_exact-Inv f laws tid size m.state m.world r.well_formed r.backed in
      record {
        well_formed = v;
        backed = b;
        pinned =
            (allocate-PinInv f laws tid size m.state m.world m.leases r.well_formed r.backed
              r.pinned).1;
      }
  step-IsSound (deallocates p) m a r = record {
    well_formed = deallocate-Inv p m.state r.well_formed;
    backed =
        keep_map f laws m.state (deallocate p m.state).1 m.world (same_maps f laws m.state p 0).0
          r.backed;
    pinned =
        SamePins-PinInv m.state (deallocate p m.state).1 m.leases
          (deallocate-SamePins f laws p m.state) r.pinned;
  }
  step-IsSound (retains p) m a r = record {
    well_formed = retain_allocation-Inv p m.state a r.well_formed;
    backed =
        keep_map f laws m.state (retain_allocation p m.state).1 m.world
          (same_maps f laws m.state p 0).1 r.backed;
    pinned =
        SamePins-PinInv m.state (retain_allocation p m.state).1 m.leases
          (retain-SamePins f laws p m.state) r.pinned;
  }
  step-IsSound (begins tid) m a r = record {
    well_formed = begin-Inv tid m.state r.well_formed;
    backed =
        keep_map f laws m.state (begin_pin_mode tid m.state).1 m.world
          (same_maps f laws m.state 0 tid).2 r.backed;
    pinned = begin-PinInv tid m.state m.leases r.pinned;
  }
  step-IsSound (commits tid) m a r = record {
    well_formed = commit-Inv tid m.state r.well_formed;
    backed =
        keep_map f laws m.state (commit_pin_mode tid m.state).1 m.world
          (same_maps f laws m.state 0 tid).3 r.backed;
    pinned = commit-PinInv tid m.state m.leases r.pinned;
  }
  step-IsSound (cancels tid) m a r = record {
    well_formed = cancel-Inv tid m.state r.well_formed;
    backed =
        keep_map f laws m.state (cancel_pin_mode tid m.state).1 m.world
          (same_maps f laws m.state 0 tid).4 r.backed;
    pinned = cancel-PinInv tid m.state m.leases r.pinned;
  }
  step-IsSound (captures tid p) m a r = record {
    well_formed = retain_for_capture-Inv tid p m.state r.well_formed;
    backed =
        keep_map f laws m.state (retain_for_capture tid p m.state).1 m.world
          (same_maps f laws m.state p tid).5 r.backed;
    pinned = retain_for_capture-PinInv tid p m.state m.leases r.well_formed r.pinned;
  }
  step-IsSound trims m a r =
      let (v, b, _, _) = trim-TrimmedTo f laws m.state m.world r.well_formed r.backed in
      record {
        well_formed = v;
        backed = b;
        pinned = trim-PinInv f laws m.state m.world m.leases r.well_formed r.backed r.pinned;
      }
  step-IsSound (lease_ends k) m a r = record {
    well_formed = release_frozen-Inv (lease_at k m.leases) m.state r.well_formed;
    backed = unfold release_frozen_blocks in r.backed;
    pinned = release-PinInv k m.state m.leases r.pinned;
  }

  abbrev pub started : Device → ℕ → ℕ → W → Machine W
  started device stream allocation_stream w = record {
    state = initial_state device stream allocation_stream;
    world = w;
    leases = [];
  }

  pub started-IsSound :
      (device : Device) (stream allocation_stream : ℕ) (w : W)
      → IsSound (started device stream allocation_stream w)
  started-IsSound device stream allocation_stream w = record {
    well_formed = record {
      owned = λ p i e. cc;
      free = λ c i h. absurd (
          ground (
            arith,
            free_of-empty c initial_classes (
              refl,
              (refl, (refl, (refl, (refl, (refl, (refl, (refl, (refl, (refl, (refl, tt)))))))))),
            ),
          ));
      large = λ i h. absurd (omega arith);
    };
    backed = λ p i e. cc;
    pinned = record {
      frozen_once = λ j. omega arith;
      same_set = λ j. refl;
      idle_empty = λ e. (refl, refl);
      bounded = λ j. omega arith;
      small = omega arith;
      made = λ j h. refl;
      pins = λ j. refl;
      held = λ j h. absurd (omega arith);
    };
  }

  pub Run-IsSound : {m n : Machine W} → IsSound m → Run f m n → IsSound n
  Run-IsSound v here = v
  Run-IsSound v (next r c a) = step-IsSound c _ a (Run-IsSound v r)
