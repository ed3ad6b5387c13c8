-- ===== src/Pool/Lifetime.antt =====
-- The start and the end of a pool.
use infini_rt.Base.{
  ℕ, ◌≡◌, ◌≢◌, ◌==◌, if◌then◌else◌, ◌∙◌, List, ◌∷◌, [], arith, ==_ne, ◌⊎◌, ◌<◌, some, true, false,
  Bool-cases, inl, inr,
}
use infini_rt.Device.{Device, type_eq, nvidia}
use infini_rt.Facade.{Facade, Allocates}
use infini_rt.Guard.{construct}
use infini_rt.Pool.Machine.{State, ok, find}
use infini_rt.Pool.Allocate.{free_block}
use infini_rt.Pool.Entry.{create, close, close_stream, free_all, initial_state}
use infini_rt.Pool.Invariant.{Inv}
use infini_rt.Pool.Backing.{Unchanged, live-free_block}
use infini_rt.Pool.Guarded.{construct-Unchanged, destroy-Unchanged}
use infini_rt.Pool.Reach.{Machine, Run}
use infini_rt.Pool.Pinning.{count_all}
use infini_rt.Pool.Sound.{IsSound, started-IsSound, Run-IsSound}

abbrev pub new_machine : {W : Type 0} → State → W → Machine W
new_machine s w = record { state = s; world = w; leases = [] }

module _ {W : Type 0} (f : Facade W) (laws : Allocates f) where
  -- The state that the constructor leaves, if it does not throw.
  pub create-ok :
      (device : Device) (w w' : W) (s : State)
      → create f device w ≡ (ok s, w')
      → (stream : ℕ) × (allocation_stream : ℕ) × (s ≡ initial_state device stream allocation_stream)
  unfolding create
  create-ok device w w' s h =
      let w1 = (construct f device.type device.index w).1 in
      let stream = (f.stream_create w1).1 in
      (stream, (if type_eq device.type nvidia then stream else 0), ground arith)

  -- Whatever calls of any threads and whatever ends of leases follow the construction of a pool,
  -- the state is sound: every registered block has the address of its entry, not null and
  -- allocated by the runtime; it is in use exactly if it has an owner; it stands in the free list
  -- of its class exactly once when it is a free class block; its pin count is the number of times
  -- that it stands in the live leases and the open transaction. An owner is only added to a block
  -- that has fewer than 2 ^ 64 - 1 of them.
  pub create-Run-IsSound :
      (device : Device) (w w' : W) (s : State) {n : Machine W}
      → create f device w ≡ (ok s, w')
      → Run f (new_machine s w') n
      → IsSound f laws n
  create-Run-IsSound device w w' s {n} h r =
      let (stream, allocation_stream, e) = create-ok device w w' s h in
      Run-IsSound f laws (rw e (started-IsSound f laws device stream allocation_stream w')) r

  IsSound-registered :
      (m : Machine W) (j : ℕ)
      → IsSound f laws m
      → 0 < count_all j m.leases
      → (find (m.state.heap j).ptr m.state.all_blocks ≡ some j)
        × (laws.live m.world (m.state.heap j).ptr ≡ true)
        × (0 < (m.state.heap j).pin_count)
  IsSound-registered m j v h =
      let pinned : 0 < (m.state.heap j).pin_count = omega (arith, v.pinned.pins j) in
      let e = v.pinned.held j pinned in (e, v.backed (m.state.heap j).ptr j e, pinned)

  -- In every state that any allowed calls and ends of leases reach from a constructed pool, a
  -- block of a live lease is pinned, is registered under its address, and the address is still
  -- allocated by the runtime, so that no trim has freed it.
  pub leased-registered :
      (device : Device) (w w' : W) (s : State) {n : Machine W} (j : ℕ)
      → create f device w ≡ (ok s, w')
      → Run f (new_machine s w') n
      → 0 < count_all j n.leases
      → (find (n.state.heap j).ptr n.state.all_blocks ≡ some j)
        × (laws.live n.world (n.state.heap j).ptr ≡ true)
        × (0 < (n.state.heap j).pin_count)
  leased-registered device w w' s {n} j h r =
      IsSound-registered n j (create-Run-IsSound device w w' s h r)

  free_all-falls :
      (s : State) (all : List (ℕ × ℕ)) (w : W) (q : ℕ)
      → laws.live w q ≡ false
      → laws.live (free_all f s all w) q ≡ false
  unfolding free_all
  free_all-falls s [] w q dead = dead
  free_all-falls s ((p, i) ∷ rest) w q dead =
      free_all-falls s rest _ q (ground (arith, live-free_block f laws s (s.heap i).ptr q w))

  free_all-frees :
      (s : State) (all : List (ℕ × ℕ)) (w : W) (p i : ℕ)
      → ((q : ℕ) (w1 : W) → (free_block f q s w1).0 ≡ 0)
      → find p all ≡ some i
      → (s.heap i).ptr ≡ p
      → p ≢ 0
      → laws.live (free_all f s all w) p ≡ false
  unfolding free_all
  free_all-frees s [] w p i fine e at not_null = cc
  free_all-frees s ((q, k) ∷ rest) w p i fine e at not_null = elim (Bool-cases (p == q)) [
    | inl same ↦
        free_all-falls s rest _ p
          (ground (arith, live-free_block f laws s (s.heap k).ptr p w, fine (s.heap k).ptr w))
    | inr other ↦ free_all-frees s rest _ p i fine (ground arith) at not_null
  ]

  close_stream-busy :
      (s : State) (w : W)
      → s.stream ≢ 0
      → (f.stream_synchronize s.stream w).0 ≢ 0
      → Unchanged f laws w (close_stream f s w)
  unfolding close_stream
  close_stream-busy s w own busy q =
      rw (==_ne s.stream 0 own, ==_ne (f.stream_synchronize s.stream w).0 0 busy)
        (laws.live-synchronize s.stream q w)

  close_stream-frees :
      (s : State) (w : W) (p i : ℕ)
      → ((w1 : W) → (f.stream_synchronize s.stream w1).0 ≡ 0)
      → ((q : ℕ) (w1 : W) → (free_block f q s w1).0 ≡ 0)
      → find p s.all_blocks ≡ some i
      → (s.heap i).ptr ≡ p
      → p ≢ 0
      → laws.live (close_stream f s w) p ≡ false
  unfolding close_stream
  close_stream-frees s w p i idle fine e at not_null =
      let w1 = (f.stream_synchronize s.stream w).1 in
      let freed = free_all f s s.all_blocks w1 in
      let w2 = (f.stream_synchronize s.stream freed).1 in
      let dead = free_all-frees s s.all_blocks w p i fine e at not_null in
      let dead1 = free_all-frees s s.all_blocks w1 p i fine e at not_null in
      ground (
        arith,
        dead,
        dead1,
        idle w,
        idle freed,
        laws.live-synchronize s.stream p freed,
        laws.live-destroy s.stream p w2,
      )

  module _ (s : State) (w : W) where
    abbrev entered : W
    entered = (construct f s.device.type s.device.index w).1

    -- The destructor frees nothing if it cannot select the pool's device, or if the pool has a
    -- stream and its first synchronization fails.
    pub close_retains :
        ((construct f s.device.type s.device.index w).0.active ≡ false)
          ⊎ ((s.stream ≢ 0) × ((f.stream_synchronize s.stream entered).0 ≢ 0))
        → Unchanged f laws w (close f s w)
    unfolding close
    close_retains (inl inactive) q =
        let (guard, w1) = construct f s.device.type s.device.index w in
        rw inactive (
          destroy-Unchanged f laws guard w1 q
          ∙ construct-Unchanged f laws s.device.type s.device.index w q)
    close_retains (inr (own, busy)) q =
        let (guard, w1) = construct f s.device.type s.device.index w in
        let entry = construct-Unchanged f laws s.device.type s.device.index w q in
        elim (Bool-cases (construct f s.device.type s.device.index w).0.active) [
          | inr inactive ↦ rw inactive (destroy-Unchanged f laws guard w1 q ∙ entry)
          | inl active ↦ rw active (
              destroy-Unchanged f laws guard (close_stream f s w1) q
              ∙ close_stream-busy s w1 own busy q
              ∙ entry)
        ]

    -- If a well-formed pool can select its device, the stream synchronizes, and each free returns
    -- success, the destructor has freed the address of every registered block.
    pub close_frees :
        Inv s
        → (construct f s.device.type s.device.index w).0.active ≡ true
        → ((w1 : W) → (f.stream_synchronize s.stream w1).0 ≡ 0)
        → ((q : ℕ) (w1 : W) → (free_block f q s w1).0 ≡ 0)
        → (p i : ℕ) → find p s.all_blocks ≡ some i
        → laws.live (close f s w) p ≡ false
    unfolding close
    close_frees v active idle fine p i e =
        let (guard, w1) = construct f s.device.type s.device.index w in
        let o = v.owned p i e in
        rw active (
          destroy-Unchanged f laws guard (close_stream f s w1) p
          ∙ close_stream-frees s w1 p i idle fine e o.at_ptr o.not_null)
