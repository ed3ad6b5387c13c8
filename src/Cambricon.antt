-- ===== src/Cambricon.antt =====
-- `Runtime<kCambricon>` of src/native/cambricon/runtime_.h, where it has code of its own. CNRT is a
-- parameter. A status is a number, with 0 for `kSuccess`; a pointer, queue or handle is a number,
-- with 0 for null.
use infini_rt.Base.{ℕ, ◌%◌, ◌^◌, ◌<◌, ◌≡◌, refl, Bool, false, ◌==◌, ◌&&◌, if◌then◌else◌, arith, inr}
use infini_rt.Device.{Device, DeviceType, cambricon, type_eq}
use infini_rt.Facade.{Facade, Allocates, Answers}
use infini_rt.Pool.Machine.{State, ok}
use infini_rt.Pool.Entry.{create}
use infini_rt.Pool.Reach.{Machine, Run}
use infini_rt.Pool.Sound.{IsSound}
use infini_rt.Pool.Lifetime.{new_machine, create-Run-IsSound}

-- The functions of CNRT. What an out parameter holds afterwards stands behind the status.
pub record Cnrt (W : Type 0) : Type 0 where
  pub set_device : ℕ → W → ℕ × W
  pub get_device : W → ℕ × ℕ
  -- The out parameter is given as it is before the call.
  pub get_device_count : ℕ → W → ℕ × ℕ × W
  pub malloc : ℕ → W → ℕ × ℕ × W
  pub free : ℕ → W → ℕ × W
  pub memcpy : ℕ → ℕ → ℕ → ℕ → W → ℕ × W
  -- The queue comes before the kind of the copy.
  pub memcpy_async_v2 : ℕ → ℕ → ℕ → ℕ → ℕ → W → ℕ × W
  pub queue_create : W → ℕ × ℕ × W
  pub queue_destroy : ℕ → W → ℕ × W
  pub queue_sync : ℕ → W → ℕ × W
  pub queue_end_capture : ℕ → ℕ → W → ℕ × ℕ × W
  pub task_topo_destroy : ℕ → W → ℕ × W
  -- The error node and the log buffer with its size come behind the graph.
  pub task_topo_instantiate : ℕ → ℕ → ℕ → ℕ → W → ℕ × ℕ × W
  pub task_topo_entity_destroy : ℕ → W → ℕ × W

-- `Unsupported`.
abbrev pub unsupported : ℕ
unsupported = 1

module _ {W : Type 0} (cnrt : Cnrt W) where
  -- The count is an `unsigned int` that becomes the 32-bit pattern of an `int`. It is written
  -- whatever the status is.
  unfoldable pub get_device_count : W → ℕ × ℕ × W
  get_device_count w =
      let (status, device_count, w1) = cnrt.get_device_count 0 w in
      (status, device_count % 2 ^ 32, w1)

  abbrev pub memcpy : ℕ → ℕ → ℕ → ℕ → W → ℕ × W
  memcpy dst src size kind w = cnrt.memcpy dst src size kind w

  abbrev pub memcpy_async : ℕ → ℕ → ℕ → ℕ → ℕ → W → ℕ × W
  memcpy_async dst src size kind stream w = cnrt.memcpy_async_v2 dst src size stream kind w

  abbrev pub stream_end_capture : ℕ → ℕ → W → ℕ × ℕ × W
  stream_end_capture stream graph w = cnrt.queue_end_capture stream graph w

  unfoldable pub graph_destroy : ℕ → W → ℕ × W
  graph_destroy graph w = if graph == 0 then (0, w) else cnrt.task_topo_destroy graph w

  abbrev pub graph_instantiate : ℕ → W → ℕ × ℕ × W
  graph_instantiate graph w = cnrt.task_topo_instantiate graph 0 0 0 w

  unfoldable pub graph_exec_destroy : ℕ → W → ℕ × W
  graph_exec_destroy graph_exec w =
      if graph_exec == 0 then (0, w) else cnrt.task_topo_entity_destroy graph_exec w

-- What is not supported, with the out parameters and the world as they were.
module _ {W : Type 0} where
  abbrev pub malloc_host : ℕ → W → ℕ × ℕ × W
  malloc_host size w = (unsupported, 0, w)

  abbrev pub malloc_async : ℕ → ℕ → W → ℕ × ℕ × W
  malloc_async size stream w = (unsupported, 0, w)

  abbrev pub free_host : ℕ → W → ℕ × W
  free_host ptr w = (unsupported, w)

  abbrev pub free_async : ℕ → ℕ → W → ℕ × W
  free_async ptr stream w = (unsupported, w)

  abbrev pub mem_get_info : W → ℕ × W
  mem_get_info w = (unsupported, w)

  abbrev pub stream_wait_event : ℕ → ℕ → ℕ → W → ℕ × W
  stream_wait_event stream event flags w = (unsupported, w)

  abbrev pub event_create : W → ℕ × W
  event_create w = (unsupported, w)

  abbrev pub event_create_with_flags : ℕ → W → ℕ × W
  event_create_with_flags flags w = (unsupported, w)

  abbrev pub event_record : ℕ → ℕ → W → ℕ × W
  event_record event stream w = (unsupported, w)

  abbrev pub event_query : ℕ → W → ℕ × W
  event_query event w = (unsupported, w)

  abbrev pub event_synchronize : ℕ → W → ℕ × W
  event_synchronize event w = (unsupported, w)

  abbrev pub event_destroy : ℕ → W → ℕ × W
  event_destroy event w = (unsupported, w)

  abbrev pub event_elapsed_time : ℕ → ℕ → W → ℕ × W
  event_elapsed_time start end w = (unsupported, w)

-- A thread's selected device type, and the world of CNRT.
pub record Thread (W : Type 0) : Type 0 where
  pub selected : DeviceType
  pub world : W

abbrev after_status : {W : Type 0} → Thread W → ℕ × W → ℕ × Thread W
after_status t (status, w) = (status, record t { world = w })

abbrev after_out : {W : Type 0} → Thread W → ℕ × ℕ × W → ℕ × ℕ × Thread W
after_out t (status, out, w) = (status, out, record t { world = w })

-- The facade that a build with this backend alone gives.
abbrev pub cambricon_facade : {W : Type 0} → Cnrt W → Facade (Thread W)
cambricon_facade cnrt = record {
  device_enabled = λ d. type_eq d cambricon;
  with_nvidia = false;
  runtime_device_type = λ t. t.selected;
  set_runtime_device_type = λ d t. record t { selected = d };
  get_device = λ t. cnrt.get_device t.world;
  set_device = λ i t. after_status t (cnrt.set_device i t.world);
  malloc = λ size t. after_out t (cnrt.malloc size t.world);
  malloc_async = λ size stream t. after_out t (malloc_async size stream t.world);
  free = λ ptr t. after_status t (cnrt.free ptr t.world);
  free_async = λ ptr stream t. after_status t (free_async ptr stream t.world);
  stream_create = λ t. after_out t (cnrt.queue_create t.world);
  stream_destroy = λ stream t. after_status t (cnrt.queue_destroy stream t.world);
  stream_synchronize = λ stream t. after_status t (cnrt.queue_sync stream t.world);
  is_capturing = λ stream t. (0, false);
}

-- What CNRT documents of device memory.
pub record CnrtAllocates {W : Type 0} (cnrt : Cnrt W) : Type 0 where
  pub live : W → ℕ → Bool
  pub malloc-Answers :
      (n : ℕ) (w : W)
      → 0 < n
      → Answers live w (cnrt.malloc n w).0 (cnrt.malloc n w).1 (cnrt.malloc n w).2
  pub live-free :
      (p q : ℕ) (w : W)
      → live (cnrt.free p w).1 q ≡ (if (cnrt.free p w).0 == 0 && (q == p) then false else live w q)
  pub live-set_device : (i q : ℕ) (w : W) → live (cnrt.set_device i w).1 q ≡ live w q
  pub live-create : (q : ℕ) (w : W) → live (cnrt.queue_create w).2 q ≡ live w q
  pub live-destroy : (s q : ℕ) (w : W) → live (cnrt.queue_destroy s w).1 q ≡ live w q
  pub live-sync : (s q : ℕ) (w : W) → live (cnrt.queue_sync s w).1 q ≡ live w q

module _ {W : Type 0} (cnrt : Cnrt W) (a : CnrtAllocates cnrt) where
  pub cambricon_facade-Allocates : Allocates (cambricon_facade cnrt)
  cambricon_facade-Allocates = record {
    live = λ t q. a.live t.world q;
    malloc-Answers = λ n t h. a.malloc-Answers n t.world h;
    malloc_async-Answers = λ n stream t h. inr (omega arith, refl, λ q. refl);
    live-free = λ p q t. a.live-free p q t.world;
    live-free_async = λ p stream q t. refl;
    live-set_type = λ d q t. refl;
    live-set_device = λ i q t. a.live-set_device i q t.world;
    live-synchronize = λ stream q t. a.live-sync stream q t.world;
    live-destroy = λ stream q t. a.live-destroy stream q t.world;
    live-create = λ q t. a.live-create q t.world;
  }

  -- With a CNRT that allocates as it documents, a pool that was constructed on this backend is
  -- sound in every state that any allowed calls reach.
  pub cambricon_pool-IsSound :
      (device : Device) (t t' : Thread W) (s : State) {n : Machine (Thread W)}
      → create (cambricon_facade cnrt) device t ≡ (ok s, t')
      → Run (cambricon_facade cnrt) (new_machine s t') n
      → IsSound (cambricon_facade cnrt) cambricon_facade-Allocates n
  cambricon_pool-IsSound device t t' s h r =
      create-Run-IsSound (cambricon_facade cnrt) cambricon_facade-Allocates device t t' s h r
