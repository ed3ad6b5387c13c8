-- ===== src/Ascend/Graphs.antt =====
-- Capture and launch of graphs in src/native/ascend/runtime_.h.
use infini_rt.Base.{
  ℕ, ◌≡◌, refl, ap, sym, ◌∙◌, true, false, ◌==◌, if◌then◌else◌, some, arith, Bool-cases,
  Option-cases, inl, inr,
}
use infini_rt.Ascend.{
  Acl, Process, RiApi, load_api, graph_api, stream_begin_capture, stream_end_capture, graph_destroy,
  graph_instantiate, graph_launch, graph_api_from, load_symbols, open_again, available, returns,
  unsupported,
}

available-destroy : (a : RiApi) → available a ≡ true → (a.destroy == 0) ≡ false
unfolding available
available-destroy a h = ground (arith, h)

module _ {W : Type 0} (acl : Acl W) where
  -- Where the probe finds the graph functions, all five come from one library: the default scope,
  -- the library that was loaded already, or the one that the probe loads.
  pub load_api-available :
      (w : W)
      → available (load_api acl w).0 ≡ true
      → (lib : ℕ) × (load_api acl w).0 ≡ load_symbols acl lib (load_api acl w).1
  unfolding load_api
  load_api-available w h = elim (Bool-cases (available (load_symbols acl 0 w))) [
    | inl e ↦ rw e (0, refl)
    | inr e ↦ elim (Bool-cases ((open_again acl (acl.dlopen true w)).0 == 0)) [
      | inl z ↦ absurd (ground (arith, h, e, z))
      | inr z ↦ rw (e, z) (_, refl)
    ]
  ]

  graph_api-some : (p : Process W) (a : RiApi) → p.graph_api ≡ some a → graph_api acl p ≡ (a, p)
  unfolding graph_api
  graph_api-some p a e = ap (λ o. graph_api_from acl o p) e

  -- Where one of the five functions is missing, a capture neither begins nor ends and no graph is
  -- launched: each gives the status 1, keeps the graph, and changes nothing after the probe.
  pub unavailable_lem :
      (p : Process W) (stream mode graph graph_exec : ℕ)
      → available (graph_api acl p).0 ≡ false
      → (stream_begin_capture acl stream mode p ≡ (unsupported, (graph_api acl p).1))
        × (stream_end_capture acl stream graph p ≡ (unsupported, graph, (graph_api acl p).1))
        × (graph_launch acl graph_exec stream p ≡ (unsupported, (graph_api acl p).1))
  unfolding stream_begin_capture stream_end_capture graph_launch
  unavailable_lem p stream mode graph graph_exec h = (rw h refl, rw h refl, rw h refl)

  graph_api-cached : (p : Process W) → (graph_api acl p).1.graph_api ≡ some (graph_api acl p).0
  unfolding graph_api
  graph_api-cached p = elim (Option-cases p.graph_api) [
    | inl e ↦ rw e refl
    | inr (a, e) ↦ rw e refl
  ]

  end_capture-cached :
      (p : Process W) (stream graph : ℕ)
      → (stream_end_capture acl stream graph p).2.graph_api ≡ some (graph_api acl p).0
  unfolding stream_end_capture
  end_capture-cached p stream graph = ground (arith, graph_api-cached p)

  end_capture-available :
      (p : Process W) (stream graph : ℕ)
      → (stream_end_capture acl stream graph p).0 ≡ 0
      → available (graph_api acl p).0 ≡ true
  unfolding stream_end_capture
  end_capture-available p stream graph h = ground (arith, h)

  -- A capture that ends with success leaves the graph functions available, and the graph that it
  -- stores is the one that an instance of it launches and that the destruction of it destroys,
  -- unless it is a null pointer.
  pub captured-launch :
      (p p' : Process W) (stream graph model : ℕ)
      → stream_end_capture acl stream graph p ≡ (0, model, p')
      → (available (graph_api acl p').0 ≡ true)
        × (graph_launch acl (graph_instantiate acl model p').1 stream p'
            ≡ returns p'
                (acl.execute_async (graph_api acl p').0.execute_async model stream p'.world))
        × (graph_destroy acl model p' ≡ (
            if model == 0
            then (0, p')
            else returns p' (acl.destroy (graph_api acl p').0.destroy model p'.world)))
  unfolding graph_launch graph_destroy
  captured-launch p p' stream graph model h =
      let a = end_capture-available p stream graph (ap (λ o. o.0) h) in
      let q : graph_api acl p' ≡ ((graph_api acl p).0, p') =
        graph_api-some p' _ (sym (ap (λ o. o.2.graph_api) h) ∙ end_capture-cached p stream graph) in
      (rw q a, rw (q, a) refl, rw (q, available-destroy _ a) refl)
