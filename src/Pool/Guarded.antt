-- ===== src/Pool/Guarded.antt =====
-- The calls that select the device first: what holds of the body holds of the call.
use infini_rt.Base.{ℕ, ◌<◌, ◌≡◌, refl, arith, true, false, Bool-cases, inl, inr}
use infini_rt.Device.{DeviceType, Device}
use infini_rt.Facade.{Facade, Allocates}
use infini_rt.Guard.{Guard, construct, destroy, select, restore}
use infini_rt.Pool.Machine.{State, Result, ok, err, cannot_select}
use infini_rt.Pool.Allocate.{allocate_impl}
use infini_rt.Pool.Release.{trim_locked}
use infini_rt.Pool.Invariant.{Inv}
use infini_rt.Pool.Backing.{Backed, Unchanged}
use infini_rt.Pool.Grants.{Grants}
use infini_rt.Pool.Allocation.{allocate_impl-Sound, unmoved}
use infini_rt.Pool.Trim.{IsTrim, Complete, trim_locked-Sound}
use infini_rt.Pool.Entry.{guarded, allocate, allocate_exact, trim}

module _ {W : Type 0} (f : Facade W) (laws : Allocates f) where
  pub restore-Unchanged : (g : Guard) (w : W) → Unchanged f laws w (restore f g w).1
  unfolding restore
  restore-Unchanged g w q =
      let w' = f.set_runtime_device_type g.previous_type w in
      ground
        (arith, laws.live-set_type g.previous_type q w, laws.live-set_device g.previous_index q w')

  pub destroy-Unchanged : (g : Guard) (w : W) → Unchanged f laws w (destroy f g w)
  unfolding destroy
  destroy-Unchanged g w q = restore-Unchanged g w q

  select-Unchanged :
      (g : Guard) (t : DeviceType) (i : ℕ) (w : W) → Unchanged f laws w (select f g t i w).1
  unfolding select
  select-Unchanged g t i w q =
      let w1 = f.set_runtime_device_type t w in
      let w2 = (f.set_device i w1).1 in
      ground (
        arith,
        laws.live-set_type t q w,
        laws.live-set_device i q w1,
        laws.live-set_type g.previous_type q w2,
        laws.live-set_device g.previous_index q (f.set_runtime_device_type g.previous_type w2),
      )

  pub construct-Unchanged :
      (t : DeviceType) (i : ℕ) (w : W) → Unchanged f laws w (construct f t i w).1
  unfolding construct
  construct-Unchanged t i w q =
      let w1 = f.set_runtime_device_type t w in
      let w2 = (f.set_device i w1).1 in
      let w3 = f.set_runtime_device_type (f.runtime_device_type w) w2 in
      ground (
        arith,
        laws.live-set_type t q w,
        laws.live-set_device i q w1,
        laws.live-set_type (f.runtime_device_type w) q w2,
        laws.live-set_device (f.get_device w).1 q w3,
      )

  module _ (P : Result ℕ → State → W → Type 0)
      (same : (r : Result ℕ) (s : State) (w w' : W)
        → Unchanged f laws w w'
        → P r s w
        → P r s w') where
    -- `P` speaks of the result, the state and the live addresses. It holds of a guarded call if it
    -- holds of the body from every world with the same live addresses, and of a call that throws.
    pub guarded-lift :
        (device : Device) (body : W → Result ℕ × State × W) (s : State) (w : W)
        → ((w1 : W) → Unchanged f laws w w1 → P (body w1).0 (body w1).1 (body w1).2)
        → P (err cannot_select) s w
        → let r = guarded f device body s w in P r.0 r.1 r.2
    unfolding guarded
    guarded-lift device body s w inside thrown =
        elim (Bool-cases (construct f device.type device.index w).0.active) [
          | inl active ↦ rw active (
              same _ _ _ _ (destroy-Unchanged _ _)
                (inside _ (construct-Unchanged device.type device.index w)))
          | inr inactive ↦ rw inactive (
              same _ _ _ _ (destroy-Unchanged _ _)
                (same _ _ _ _ (construct-Unchanged device.type device.index w) thrown))
        ]

  -- The state is well formed and backed, and the result is what an allocation grants.
  abbrev pub Allocated : ℕ → State → ℕ → Result ℕ → State → W → Type 0
  Allocated tid s size r s' w' = Inv s' × Backed f laws s' w' × Grants tid s size (r, s', w')

  Allocated-same :
      (tid : ℕ) (s : State) (size : ℕ) (r : Result ℕ) (s' : State) (w w' : W)
      → Unchanged f laws w w'
      → Allocated tid s size r s' w
      → Allocated tid s size r s' w'
  Allocated-same tid s size (ok p) s' w w' u (v, b, g) = (v, λ q j e. ground (arith, u q, b q j), g)
  Allocated-same tid s size (err x) s' w w' u (v, b, g) =
      (v, λ q j e. ground (arith, u q, b q j), g)

  module _ (s : State) (w : W) (v : Inv s) (backed : Backed f laws s w) where
    Backed-same : (w1 : W) → Unchanged f laws w w1 → Backed f laws s w1
    Backed-same w1 u q j e = ground (arith, u q, backed q j)

    -- From a well-formed and backed state, an allocation of a size other than zero keeps the
    -- state well formed and backed. If it returns an address, this is the registered address, not
    -- null, of a block that no one used before, that has one owner now, at least the requested
    -- size, and the mark of the calling thread's pin transaction, and all other registered blocks
    -- are as they were. If it throws, every registered block is as it was.
    pub allocate-Allocated :
        (tid size : ℕ)
        → 0 < size
        → let r = allocate f tid size s w in Allocated tid s size r.0 r.1 r.2
    unfolding allocate
    allocate-Allocated tid size pos =
        guarded-lift (Allocated tid s size) (Allocated-same tid s size) s.device
          (allocate_impl f tid size false s) s w
          (λ w1 u. allocate_impl-Sound f laws tid s w1 v (Backed-same w1 u) size false pos)
          (v, backed, unmoved)

    -- From a well-formed and backed state, an exact allocation of a size other than zero keeps
    -- the state well formed and backed, and grants a block or leaves every registered block as it
    -- was, as an allocation does.
    pub allocate_exact-Allocated :
        (tid size : ℕ)
        → 0 < size
        → let r = allocate_exact f tid size s w in Allocated tid s size r.0 r.1 r.2
    unfolding allocate_exact
    allocate_exact-Allocated tid size pos =
        guarded-lift (Allocated tid s size) (Allocated-same tid s size) s.device
          (allocate_impl f tid size true s) s w
          (λ w1 u. allocate_impl-Sound f laws tid s w1 v (Backed-same w1 u) size true pos)
          (v, backed, unmoved)

  -- The state is well formed and backed, lost free and unpinned blocks only, and lost all of them if
  -- the call returned.
  abbrev pub TrimmedTo : State → Result ℕ → State → W → Type 0
  TrimmedTo s r s' w' =
      Inv s' × Backed f laws s' w' × IsTrim f laws s s' w' × (r ≡ ok 0 → Complete f laws s')

  TrimmedTo-same :
      (s : State) (r : Result ℕ) (s' : State) (w w' : W)
      → Unchanged f laws w w'
      → TrimmedTo s r s' w
      → TrimmedTo s r s' w'
  TrimmedTo-same s r s' w w' u (v, b, t, c) = (
    v,
    λ q j e. ground (arith, u q, b q j),
    record {
      same_heap = t.same_heap;
      old = t.old;
      gone = λ q j e. ground (arith, u q, t.gone q j);
    },
    c,
  )

  -- From a well-formed and backed state, a trim keeps the state well formed and backed, changes
  -- no block, and adds no entry. An entry that is gone was free and unpinned, and its address is
  -- no longer allocated. If the call returns, each entry that is left is pinned or in use.
  pub trim-TrimmedTo :
      (s : State) (w : W)
      → Inv s
      → Backed f laws s w
      → let r = trim f s w in TrimmedTo s r.0 r.1 r.2
  unfolding trim
  trim-TrimmedTo s w v backed =
      guarded-lift (TrimmedTo s) (TrimmedTo-same s) s.device (trim_locked f s) s w
        (λ w1 u. trim_locked-Sound f laws s w1 v (Backed-same s w v backed w1 u))
        (
          v,
          backed,
          record { same_heap = λ j. refl; old = λ q j e. e; gone = λ q j e. inl e },
          λ e. cc,
        )
