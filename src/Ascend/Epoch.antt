-- ===== src/Ascend/Epoch.antt =====
-- The life of a process that uses src/native/ascend/runtime_.h: its calls, and the initialization of
-- ACL that they share.
use infini_rt.Base.{
  ℕ, ◌+◌, ◌≤◌, ◌≡◌, ◌≢◌, refl, ap, ◌∙◌, ==_ne, Bool, true, false, List, [], ◌∷◌, Option, none, some,
  arith, Option-cases, inl, inr,
}
use infini_rt.Ascend.{
  Acl, Process, ensure_initialized, set_device, get_device_count, load_api, graph_api,
  stream_begin_capture, stream_end_capture, graph_destroy, graph_instantiate, graph_exec_destroy,
  graph_launch, ensure_from,
}

pub data Call : Type 0 where
  selects counts destroys instantiates destroys_exec : ℕ → Call
  begins ends launches : ℕ → ℕ → Call

module _ {W : Type 0} (acl : Acl W) where
  unfoldable pub step : Call → Process W → Process W
  step (selects device) p = (set_device acl device p).1
  step (counts count) p = (get_device_count acl count p).2
  step (destroys graph) p = (graph_destroy acl graph p).1
  step (instantiates graph) p = (graph_instantiate acl graph p).2
  step (destroys_exec graph_exec) p = (graph_exec_destroy acl graph_exec p).1
  step (begins stream mode) p = (stream_begin_capture acl stream mode p).1
  step (ends stream graph) p = (stream_end_capture acl stream graph p).2
  step (launches graph_exec stream) p = (graph_launch acl graph_exec stream p).1

  unfoldable pub run : List Call → Process W → Process W
  run [] p = p
  run (call ∷ calls) p = run calls (step call p)

-- `inits w` counts the calls of `aclInit` so far, which no other call of the libraries changes.
pub record CountsInits {W : Type 0} (acl : Acl W) : Type 0 where
  pub inits : W → ℕ
  pub inits-init : (w : W) → inits (acl.init w).1 ≡ inits w + 1
  pub inits-set_device : (i : ℕ) (w : W) → inits (acl.set_device i w).1 ≡ inits w
  pub inits-count : (n : ℕ) (w : W) → inits (acl.get_device_count n w).2 ≡ inits w
  pub inits-dlopen : (noload : Bool) (w : W) → inits (acl.dlopen noload w).1 ≡ inits w
  pub inits-begin : (f s m : ℕ) (w : W) → inits (acl.capture_begin f s m w).1 ≡ inits w
  pub inits-info : (f s : ℕ) (w : W) → inits (acl.capture_get_info f s w).1 ≡ inits w
  pub inits-end : (f s : ℕ) (w : W) → inits (acl.capture_end f s w).2 ≡ inits w
  pub inits-execute : (f g s : ℕ) (w : W) → inits (acl.execute_async f g s w).1 ≡ inits w
  pub inits-destroy : (f g : ℕ) (w : W) → inits (acl.destroy f g w).1 ≡ inits w

abbrev to_come : Option ℕ → ℕ
to_come none = 1
to_come (some status) = 0

module _ {W : Type 0} (acl : Acl W) where
  graph_api-initialized : (p : Process W) → (graph_api acl p).1.initialized ≡ p.initialized
  unfolding graph_api
  graph_api-initialized p = elim (Option-cases p.graph_api) [
    | inl e ↦ rw e refl
    | inr (a, e) ↦ rw e refl
  ]

  ensure-some : (p : Process W) (s : ℕ) → p.initialized ≡ some s → ensure_initialized acl p ≡ (s, p)
  unfolding ensure_initialized
  ensure-some p s h = ap (λ o. ensure_from acl o p) h

  step-initialized :
      (call : Call) (p : Process W) (s : ℕ)
      → p.initialized ≡ some s
      → (step acl call p).initialized ≡ some s
  unfolding step set_device get_device_count stream_begin_capture stream_end_capture graph_destroy
      graph_launch
  step-initialized (selects device) p s h = ground (arith, ensure-some p s h, h)
  step-initialized (counts count) p s h = ground (arith, ensure-some p s h, h)
  step-initialized (destroys graph) p s h = ground (arith, graph_api-initialized p, h)
  step-initialized (instantiates graph) p s h = h
  step-initialized (destroys_exec graph_exec) p s h = h
  step-initialized (begins stream mode) p s h = ground (arith, graph_api-initialized p, h)
  step-initialized (ends stream graph) p s h = ground (arith, graph_api-initialized p, h)
  step-initialized (launches graph_exec stream) p s h = ground (arith, graph_api-initialized p, h)

  run-initialized :
      (calls : List Call) (p : Process W) (s : ℕ)
      → p.initialized ≡ some s
      → (run acl calls p).initialized ≡ some s
  unfolding run
  run-initialized [] p s h = h
  run-initialized (call ∷ calls) p s h =
      run-initialized calls (step acl call p) s (step-initialized call p s h)

  -- Once the initialization has failed, every later device call gives its status and calls
  -- nothing: the process and the out parameter stay as they are, whatever calls lie between.
  pub failed_init :
      (calls : List Call) (p : Process W) (s device count : ℕ)
      → p.initialized ≡ some s
      → s ≢ 0
      → (set_device acl device (run acl calls p) ≡ (s, run acl calls p))
        × (get_device_count acl count (run acl calls p) ≡ (s, count, run acl calls p))
  unfolding set_device get_device_count
  failed_init calls p s device count h bad =
      let e = ensure-some (run acl calls p) s (run-initialized calls p s h) in
      (rw (e, ==_ne s 0 bad) refl, rw (e, ==_ne s 0 bad) refl)

module _ {W : Type 0} (acl : Acl W) (c : CountsInits acl) where
  load_api-inits : (w : W) → c.inits (load_api acl w).1 ≡ c.inits w
  unfolding load_api
  load_api-inits w =
      ground (arith, c.inits-dlopen true w, c.inits-dlopen false (acl.dlopen true w).1)

  graph_api-inits :
      (p : Process W)
      → (c.inits (graph_api acl p).1.world ≡ c.inits p.world)
        × ((graph_api acl p).1.initialized ≡ p.initialized)
  unfolding graph_api
  graph_api-inits p = elim (Option-cases p.graph_api) [
    | inl e ↦ rw e (load_api-inits p.world, refl)
    | inr (a, e) ↦ rw e (refl, refl)
  ]

  ensure-inits :
      (p : Process W)
      → (s : ℕ) × ((ensure_initialized acl p).1.initialized ≡ some s)
        × (c.inits (ensure_initialized acl p).1.world + 0 ≡ c.inits p.world + to_come p.initialized)
  unfolding ensure_initialized
  ensure-inits p = elim (Option-cases p.initialized) [
    | inl e ↦ rw e (_, refl, ground (arith, c.inits-init p.world))
    | inr (a, e) ↦ rw e (_, refl, refl)
  ]

  step-inits :
      (call : Call) (p : Process W)
      → c.inits (step acl call p).world + to_come (step acl call p).initialized
        ≡ c.inits p.world + to_come p.initialized
  unfolding step set_device get_device_count stream_begin_capture stream_end_capture graph_destroy
      graph_launch
  step-inits (selects device) p =
      ground (arith, ensure-inits p, c.inits-set_device device (ensure_initialized acl p).1.world)
  step-inits (counts count) p =
      ground (arith, ensure-inits p, c.inits-count 0 (ensure_initialized acl p).1.world)
  step-inits (destroys graph) p = ground (
    arith,
    graph_api-inits p,
    c.inits-destroy (graph_api acl p).0.destroy graph (graph_api acl p).1.world,
  )
  step-inits (instantiates graph) p = refl
  step-inits (destroys_exec graph_exec) p = refl
  step-inits (begins stream mode) p = ground (
    arith,
    graph_api-inits p,
    c.inits-begin (graph_api acl p).0.capture_begin stream mode (graph_api acl p).1.world,
  )
  step-inits (ends stream graph) p = ground (
    arith,
    graph_api-inits p,
    c.inits-info (graph_api acl p).0.capture_get_info stream (graph_api acl p).1.world,
    c.inits-end (graph_api acl p).0.capture_end stream
        (acl.capture_get_info (graph_api acl p).0.capture_get_info stream
          (graph_api acl p).1.world).1,
  )
  step-inits (launches graph_exec stream) p = ground (
    arith,
    graph_api-inits p,
    c.inits-execute (graph_api acl p).0.execute_async graph_exec stream (graph_api acl p).1.world,
  )

  run-inits :
      (calls : List Call) (p : Process W)
      → c.inits (run acl calls p).world + to_come (run acl calls p).initialized
        ≡ c.inits p.world + to_come p.initialized
  unfolding run
  run-inits [] p = refl
  run-inits (call ∷ calls) p = run-inits calls (step acl call p) ∙ step-inits call p

  -- In a process, whatever sequence of device selections, device counts and graph calls it makes,
  -- ACL is initialized at most once, and never again once a status is stored.
  pub init_once :
      (calls : List Call) (p : Process W)
      → (c.inits (run acl calls p).world ≤ c.inits p.world + 1)
        × ((s : ℕ) → p.initialized ≡ some s → c.inits (run acl calls p).world ≡ c.inits p.world)
  init_once calls p = (
    ground (arith, run-inits calls p),
    λ s h. ground (arith, run-inits calls p, run-initialized acl calls p s h),
  )
