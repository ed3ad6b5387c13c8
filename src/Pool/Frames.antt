-- ===== src/Pool/Frames.antt =====
-- What each call leaves alone: the pins, the map, the transaction.
use infini_rt.Base.{ℕ, zero, suc, ◌≡◌, List, arith, Bool, true, false}
use infini_rt.Facade.{Facade, Allocates}
use infini_rt.Pool.Machine.{State}
use infini_rt.Pool.Allocate.{allocate_impl}
use infini_rt.Pool.Release.{deallocate, retain_allocation, trim_locked}
use infini_rt.Pool.Pin.{begin_pin_mode, commit_pin_mode, cancel_pin_mode, retain_for_capture}
use infini_rt.Pool.Entry.{guarded, allocate, allocate_exact, trim}
use infini_rt.Pool.Invariant.{Inv}
use infini_rt.Pool.Backing.{Backed, Unchanged}
use infini_rt.Pool.Guarded.{guarded-lift, allocate-Allocated, allocate_exact-Allocated}
use infini_rt.Pool.Trim.{trim_locked-Sound}
use infini_rt.Pool.Pinning.{PinInv, SamePins, SamePins-PinInv}
use infini_rt.Pool.System.{allocate_impl-PinInv}

module _ {W : Type 0} (f : Facade W) (laws : Allocates f) where
  pub keep_map :
      (s s' : State) (w : W) → s'.all_blocks ≡ s.all_blocks → Backed f laws s w → Backed f laws s' w
  keep_map s s' w e b q j h = b q j (rw (← e) h)

  pub deallocate-SamePins : (p : ℕ) (s : State) → SamePins s (deallocate p s).1
  unfolding deallocate
  deallocate-SamePins p s = record {
    mode = ground arith;
    generation = ground arith;
    frozen = ground arith;
    frozen_set = ground arith;
    next = ground arith;
    pins = λ j. ground arith;
    keeps = λ j h e. ground arith;
  }

  pub retain-SamePins : (p : ℕ) (s : State) → SamePins s (retain_allocation p s).1
  unfolding retain_allocation
  retain-SamePins p s = record {
    mode = ground arith;
    generation = ground arith;
    frozen = ground arith;
    frozen_set = ground arith;
    next = ground arith;
    pins = λ j. ground arith;
    keeps = λ j h e. ground arith;
  }

  -- None of the calls without a guard touches the map.
  pub same_maps :
      (s : State) (p tid : ℕ)
      → ((deallocate p s).1.all_blocks ≡ s.all_blocks)
        × ((retain_allocation p s).1.all_blocks ≡ s.all_blocks)
        × ((begin_pin_mode tid s).1.all_blocks ≡ s.all_blocks)
        × ((commit_pin_mode tid s).1.all_blocks ≡ s.all_blocks)
        × ((cancel_pin_mode tid s).1.all_blocks ≡ s.all_blocks)
        × ((retain_for_capture tid p s).1.all_blocks ≡ s.all_blocks)
  unfolding deallocate retain_allocation begin_pin_mode commit_pin_mode cancel_pin_mode
      retain_for_capture
  same_maps s p tid =
      (ground arith, ground arith, ground arith, ground arith, ground arith, ground arith)

  pub trim_locked-SamePins :
      (s : State) (w : W) → Inv s → Backed f laws s w → SamePins s (trim_locked f s w).1
  unfolding trim_locked
  trim_locked-SamePins s w v b =
      let (_, _, t, _) = trim_locked-Sound f laws s w v b in
      record {
        mode = ground arith;
        generation = ground arith;
        frozen = ground arith;
        frozen_set = ground arith;
        next = ground arith;
        pins = λ j. ground (arith, t.same_heap j);
        keeps = λ j h e. ground (arith, t.same_heap j, t.gone (s.heap j).ptr j e);
      }

  -- The state of a guarded call is that of the body, or the one before.
  pub trim-PinInv :
      (s : State) (w : W) (ls : List (List ℕ))
      → Inv s
      → Backed f laws s w
      → PinInv s ls
      → PinInv (trim f s w).1 ls
  unfolding trim
  trim-PinInv s w ls v b pin =
      guarded-lift f laws (λ r s' w'. PinInv s' ls) (λ r s' w1 w2 u h. h) s.device (trim_locked f s)
        s w
        (λ w1 u.
          SamePins-PinInv s _ ls (trim_locked-SamePins s w1 v (λ q j e. ground (arith, u q, b q j)))
            pin)
        pin

  pub allocate-PinInv :
      (tid size : ℕ) (s : State) (w : W) (ls : List (List ℕ))
      → Inv s
      → Backed f laws s w
      → PinInv s ls
      → PinInv (allocate f tid size s w).1 ls × PinInv (allocate_exact f tid size s w).1 ls
  unfolding allocate allocate_exact
  allocate-PinInv tid size s w ls v b pin =
      let lift = guarded-lift f laws (λ r s' w'. PinInv s' ls) (λ r s' w1 w2 u h. h) s.device in
      let inside = λ (is_exact : Bool) (w1 : W) (u : Unchanged f laws w w1).
        allocate_impl-PinInv f laws tid s w1 ls v (λ q j e. ground (arith, u q, b q j)) pin size
          is_exact in
      (
        lift (allocate_impl f tid size false s) s w (inside false) pin,
        lift (allocate_impl f tid size true s) s w (inside true) pin,
      )

  -- An empty request changes nothing of the state.
  pub allocate_zero :
      (tid : ℕ) (s : State) (w : W) (is_exact : Bool)
      → Inv s
      → Backed f laws s w
      → let r = guarded f s.device (allocate_impl f tid 0 is_exact s) s w in
        Inv r.1 × Backed f laws r.1 r.2
  unfolding allocate_impl
  allocate_zero tid s w is_exact v b =
      guarded-lift f laws (λ r s' w'. Inv s' × Backed f laws s' w')
        (λ r s' w1 w2 u h. (h.0, λ q j e. ground (arith, u q, h.1 q j))) s.device
        (allocate_impl f tid 0 is_exact s) s w (λ w1 u. (v, λ q j e. ground (arith, u q, b q j)))
        (v, b)

  pub allocate-Inv :
      (tid size : ℕ) (s : State) (w : W)
      → Inv s
      → Backed f laws s w
      → let r = allocate f tid size s w in Inv r.1 × Backed f laws r.1 r.2
  allocate-Inv tid zero s w v b = unfold allocate in allocate_zero tid s w false v b
  allocate-Inv tid (suc n) s w v b =
      let (v', b', _) = allocate-Allocated f laws s w v b tid (suc n) (omega arith) in (v', b')

  pub allocate_exact-Inv :
      (tid size : ℕ) (s : State) (w : W)
      → Inv s
      → Backed f laws s w
      → let r = allocate_exact f tid size s w in Inv r.1 × Backed f laws r.1 r.2
  allocate_exact-Inv tid zero s w v b = unfold allocate_exact in allocate_zero tid s w true v b
  allocate_exact-Inv tid (suc n) s w v b =
      let (v', b', _) = allocate_exact-Allocated f laws s w v b tid (suc n) (omega arith) in
      (v', b')
