-- ===== src/Examples/AscendCases.antt =====
-- A process on a simulated ACL that counts its initializations.
use Prim.{tt}
use infini_rt.Base.{
  ℕ, suc, ◌+◌, ◌≤◌, ◌≡◌, refl, ltb, Bool, true, ◌&&◌, List, [], ◌∷◌, none, some, arith, count,
  remove, count-remove, inl,
}
use infini_rt.Device.{Device, ascend}
use infini_rt.Facade.{Facade, Answers}
use infini_rt.Pool.Machine.{ok}
use infini_rt.Pool.Entry.{create, initial_state}
use infini_rt.Pool.Reach.{step, here, next, allocates}
use infini_rt.Pool.Sound.{IsSound}
use infini_rt.Pool.Lifetime.{new_machine}
use infini_rt.Ascend.{
  Acl, Process, ensure_initialized, set_device, get_device_count, graph_api, graph_launch,
  graph_instantiate, graph_destroy, stream_end_capture, available, load_api,
}
use infini_rt.Ascend.Epoch.{CountsInits, run, selects, begins, launches, init_once, failed_init}
use infini_rt.Ascend.Graphs.{captured-launch}
use infini_rt.Ascend.Backend.{
  AclMemory, AclAllocates, Thread, ascend_facade, ascend_facade-Allocates, ascend_pool-IsSound,
}

pub record Ledger : Type 0 where
  pub initializations : ℕ
  pub top : ℕ
  pub held : List ℕ

abbrev blank_ledger : Ledger
blank_ledger = record { initializations = 0; top = 0; held = [] }

abbrev simulated_acl : Acl Ledger
simulated_acl = record {
  repeat_initialize = 100002;
  init = λ w. (0, record w { initializations = w.initializations + 1 });
  set_device = λ i w. (0, w);
  get_device_count = λ held w. (0, 8, w);
  dlsym = λ lib name w. 7;
  dlopen = λ noload w. (0, w);
  capture_begin = λ f stream mode w. (0, w);
  capture_get_info = λ f stream w. (0, w);
  capture_end = λ f stream w. (0, 5, w);
  execute_async = λ f graph stream w. (0, w);
  destroy = λ f graph w. (0, w);
}

abbrev simulated_acl-CountsInits : CountsInits simulated_acl
simulated_acl-CountsInits = record {
  inits = λ w. w.initializations;
  inits-init = λ w. refl;
  inits-set_device = λ i w. refl;
  inits-count = λ n w. refl;
  inits-dlopen = λ noload w. refl;
  inits-begin = λ f s m w. refl;
  inits-info = λ f s w. refl;
  inits-end = λ f s w. refl;
  inits-execute = λ f g s w. refl;
  inits-destroy = λ f g w. refl;
}

abbrev started : Process Ledger
started = record { initialized = none; graph_api = none; world = blank_ledger }

init_once_example :
    let n = run simulated_acl (selects 0 ∷ begins 1 0 ∷ selects 1 ∷ []) started in
    (n.world.initializations ≤ 0 + 1) × ((s : ℕ) → none ≡ some s → n.world.initializations ≡ 0)
init_once_example =
    init_once simulated_acl simulated_acl-CountsInits (selects 0 ∷ begins 1 0 ∷ selects 1 ∷ [])
      started

abbrev broken : Process Ledger
broken = record { initialized = some 507008; graph_api = none; world = blank_ledger }

broken_stays_broken :
    let n = run simulated_acl (begins 1 0 ∷ launches 5 1 ∷ []) broken in
    (set_device simulated_acl 2 n ≡ (507008, n))
    × (get_device_count simulated_acl 4 n ≡ (507008, 4, n))
broken_stays_broken =
    failed_init simulated_acl (begins 1 0 ∷ launches 5 1 ∷ []) broken 507008 2 4 refl
      (λ e. omega (arith, e))

-- The process after a probe that finds all five functions in the default scope.
abbrev probed : Process Ledger
probed = record started {
  graph_api = some (record {
    capture_begin = 7;
    capture_get_info = 7;
    capture_end = 7;
    execute_async = 7;
    destroy = 7;
  });
}

probed_captures : stream_end_capture simulated_acl 1 0 started ≡ (0, 5, probed)
unfolding stream_end_capture graph_api load_api available
probed_captures = refl

captured-launch_example :
    (available (graph_api simulated_acl probed).0 ≡ true)
    × (graph_launch simulated_acl (graph_instantiate simulated_acl 5 probed).1 1 probed
        ≡ (0, probed))
    × (graph_destroy simulated_acl 5 probed ≡ (0, probed))
captured-launch_example = captured-launch simulated_acl started probed 1 0 5 probed_captures

abbrev allocated : Ledger → ℕ → Bool
allocated w p = ltb 0 (count p w.held) && ltb p (suc w.top)

abbrev take_next : Ledger → Ledger
take_next w = record w { top = suc w.top; held = suc w.top ∷ w.held }

abbrev simulated_memory : AclMemory Ledger
simulated_memory = record {
  malloc_huge_first = 0;
  get_device = λ w. (0, 0);
  malloc = λ n policy w. (0, suc w.top, take_next w);
  free = λ p w. (0, record w { held = remove p w.held });
  memcpy = λ dst room src n kind w. (0, w);
  memcpy_async = λ dst room src n kind stream w. (0, w);
  memset = λ p room value n w. (0, w);
  memset_async = λ p room value n stream w. (0, w);
  create_stream = λ w. (0, 77, w);
  destroy_stream = λ s w. (0, w);
  synchronize_stream = λ s w. (0, w);
  synchronize_device = λ w. (0, w);
}

take_next-Answers : (w : Ledger) → Answers allocated w 0 (suc w.top) (take_next w)
take_next-Answers w = inl (refl, omega arith, ground arith, λ q. ground arith)

simulated_memory-AclAllocates : AclAllocates simulated_acl simulated_memory
simulated_memory-AclAllocates = record {
  live = allocated;
  malloc-Answers = λ n policy w h. take_next-Answers w;
  live-free = λ p q w. ground (arith, count-remove q p w.held);
  live-init = λ q w. refl;
  live-set_device = λ i q w. refl;
  live-create = λ q w. refl;
  live-destroy = λ s q w. refl;
  live-synchronize = λ s q w. refl;
}

abbrev thread : Thread Ledger
thread = record { selected = ascend; process = started }

abbrev npu : Device
npu = record { type = ascend; index = 0 }

abbrev npu_facade : Facade (Thread Ledger)
npu_facade = ascend_facade simulated_acl simulated_memory

abbrev opened : Thread Ledger
opened = record thread {
  process = record started {
    initialized = some 0;
    world = record blank_ledger { initializations = 1 };
  };
}

npu_created : create npu_facade npu thread ≡ (ok (initial_state npu 77 0), opened)
unfolding create set_device ensure_initialized
npu_created = refl

npu_pool-IsSound :
    IsSound npu_facade
      (ascend_facade-Allocates simulated_acl simulated_memory simulated_memory-AclAllocates)
      (step npu_facade (allocates 1 500) (new_machine (initial_state npu 77 0) opened))
npu_pool-IsSound =
    ascend_pool-IsSound simulated_acl simulated_memory simulated_memory-AclAllocates npu thread
      opened (initial_state npu 77 0) npu_created (next here (allocates 1 500) tt)
