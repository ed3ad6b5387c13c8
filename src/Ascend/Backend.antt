-- ===== src/Ascend/Backend.antt =====
-- The memory, copies and streams of `Runtime<kAscend>` in src/native/ascend/runtime_.h, and the
-- facade that a build with this backend alone gives.
use infini_rt.Base.{
  ℕ, ◌<◌, ◌≡◌, refl, Bool, false, ◌==◌, ◌&&◌, if◌then◌else◌, arith, inr, Option-cases, inl,
}
use infini_rt.Device.{Device, DeviceType, ascend, type_eq}
use infini_rt.Facade.{Facade, Allocates, Answers}
use infini_rt.Pool.Machine.{State, ok}
use infini_rt.Pool.Entry.{create}
use infini_rt.Pool.Reach.{Machine, Run}
use infini_rt.Pool.Sound.{IsSound}
use infini_rt.Pool.Lifetime.{new_machine, create-Run-IsSound}
use infini_rt.Ascend.{
  Acl, Process, returns, returns_out, unsupported, ensure_initialized, set_device,
}

-- The calls of ACL that the backend passes on. The policy of an allocation comes second, and the
-- size of the destination of a copy or fill comes behind it.
pub record AclMemory (W : Type 0) : Type 0 where
  pub malloc_huge_first : ℕ
  pub get_device : W → ℕ × ℕ
  pub malloc : ℕ → ℕ → W → ℕ × ℕ × W
  pub free : ℕ → W → ℕ × W
  pub memcpy : ℕ → ℕ → ℕ → ℕ → ℕ → W → ℕ × W
  pub memcpy_async : ℕ → ℕ → ℕ → ℕ → ℕ → ℕ → W → ℕ × W
  pub memset : ℕ → ℕ → ℕ → ℕ → W → ℕ × W
  pub memset_async : ℕ → ℕ → ℕ → ℕ → ℕ → W → ℕ × W
  pub create_stream : W → ℕ × ℕ × W
  pub destroy_stream : ℕ → W → ℕ × W
  pub synchronize_stream : ℕ → W → ℕ × W
  pub synchronize_device : W → ℕ × W

module _ {W : Type 0} (m : AclMemory W) where
  abbrev pub malloc : ℕ → Process W → ℕ × ℕ × Process W
  malloc size p = returns_out p (m.malloc size m.malloc_huge_first p.world)

  abbrev pub free : ℕ → Process W → ℕ × Process W
  free ptr p = returns p (m.free ptr p.world)

  abbrev pub memcpy : ℕ → ℕ → ℕ → ℕ → Process W → ℕ × Process W
  memcpy dst src count kind p = returns p (m.memcpy dst count src count kind p.world)

  abbrev pub memcpy_async : ℕ → ℕ → ℕ → ℕ → ℕ → Process W → ℕ × Process W
  memcpy_async dst src count kind stream p =
      returns p (m.memcpy_async dst count src count kind stream p.world)

  abbrev pub memset : ℕ → ℕ → ℕ → Process W → ℕ × Process W
  memset ptr value count p = returns p (m.memset ptr count value count p.world)

  abbrev pub memset_async : ℕ → ℕ → ℕ → ℕ → Process W → ℕ × Process W
  memset_async ptr value count stream p =
      returns p (m.memset_async ptr count value count stream p.world)

  abbrev pub stream_create : Process W → ℕ × ℕ × Process W
  stream_create p = returns_out p (m.create_stream p.world)

  abbrev pub stream_destroy : ℕ → Process W → ℕ × Process W
  stream_destroy stream p = returns p (m.destroy_stream stream p.world)

  abbrev pub stream_synchronize : ℕ → Process W → ℕ × Process W
  stream_synchronize stream p = returns p (m.synchronize_stream stream p.world)

-- What is not supported: the status, with the out parameters and the process as they were.
module _ {W : Type 0} where
  abbrev pub malloc_host : ℕ → Process W → ℕ × ℕ × Process W
  malloc_host size p = (unsupported, 0, p)

  abbrev pub malloc_async : ℕ → ℕ → Process W → ℕ × ℕ × Process W
  malloc_async size stream p = (unsupported, 0, p)

  abbrev pub free_host : ℕ → Process W → ℕ × Process W
  free_host ptr p = (unsupported, p)

  abbrev pub free_async : ℕ → ℕ → Process W → ℕ × Process W
  free_async ptr stream p = (unsupported, p)

  abbrev pub mem_get_info : Process W → ℕ × Process W
  mem_get_info p = (unsupported, p)

  abbrev pub stream_wait_event : ℕ → ℕ → ℕ → Process W → ℕ × Process W
  stream_wait_event stream event flags p = (unsupported, p)

  abbrev pub event_create : Process W → ℕ × Process W
  event_create p = (unsupported, p)

  abbrev pub event_create_with_flags : ℕ → Process W → ℕ × Process W
  event_create_with_flags flags p = (unsupported, p)

  abbrev pub event_record : ℕ → ℕ → Process W → ℕ × Process W
  event_record event stream p = (unsupported, p)

  abbrev pub event_query : ℕ → Process W → ℕ × Process W
  event_query event p = (unsupported, p)

  abbrev pub event_synchronize : ℕ → Process W → ℕ × Process W
  event_synchronize event p = (unsupported, p)

  abbrev pub event_destroy : ℕ → Process W → ℕ × Process W
  event_destroy event p = (unsupported, p)

  abbrev pub event_elapsed_time : ℕ → ℕ → Process W → ℕ × Process W
  event_elapsed_time start end p = (unsupported, p)

-- A thread's selected device type, and its process.
pub record Thread (W : Type 0) : Type 0 where
  pub selected : DeviceType
  pub process : Process W

abbrev after_status : {W : Type 0} → Thread W → ℕ × Process W → ℕ × Thread W
after_status t (status, p) = (status, record t { process = p })

abbrev after_out : {W : Type 0} → Thread W → ℕ × ℕ × Process W → ℕ × ℕ × Thread W
after_out t (status, out, p) = (status, out, record t { process = p })

abbrev pub ascend_facade : {W : Type 0} → Acl W → AclMemory W → Facade (Thread W)
ascend_facade acl m = record {
  device_enabled = λ d. type_eq d ascend;
  with_nvidia = false;
  runtime_device_type = λ t. t.selected;
  set_runtime_device_type = λ d t. record t { selected = d };
  get_device = λ t. m.get_device t.process.world;
  set_device = λ i t. after_status t (set_device acl i t.process);
  malloc = λ size t. after_out t (malloc m size t.process);
  malloc_async = λ size stream t. after_out t (malloc_async size stream t.process);
  free = λ ptr t. after_status t (free m ptr t.process);
  free_async = λ ptr stream t. after_status t (free_async ptr stream t.process);
  stream_create = λ t. after_out t (stream_create m t.process);
  stream_destroy = λ stream t. after_status t (stream_destroy m stream t.process);
  stream_synchronize = λ stream t. after_status t (stream_synchronize m stream t.process);
  is_capturing = λ stream t. (0, false);
}

-- What ACL documents of device memory: `aclrtMalloc` gives a fresh address or fails, `aclrtFree`
-- ends one that it succeeds on, and nothing else changes what is allocated.
pub record AclAllocates {W : Type 0} (acl : Acl W) (m : AclMemory W) : Type 0 where
  pub live : W → ℕ → Bool
  pub malloc-Answers :
      (n policy : ℕ) (w : W)
      → 0 < n
      → Answers live w (m.malloc n policy w).0 (m.malloc n policy w).1 (m.malloc n policy w).2
  pub live-free :
      (p q : ℕ) (w : W)
      → live (m.free p w).1 q ≡ (if (m.free p w).0 == 0 && (q == p) then false else live w q)
  pub live-init : (q : ℕ) (w : W) → live (acl.init w).1 q ≡ live w q
  pub live-set_device : (i q : ℕ) (w : W) → live (acl.set_device i w).1 q ≡ live w q
  pub live-create : (q : ℕ) (w : W) → live (m.create_stream w).2 q ≡ live w q
  pub live-destroy : (s q : ℕ) (w : W) → live (m.destroy_stream s w).1 q ≡ live w q
  pub live-synchronize : (s q : ℕ) (w : W) → live (m.synchronize_stream s w).1 q ≡ live w q

module _ {W : Type 0} (acl : Acl W) (m : AclMemory W) (a : AclAllocates acl m) where
  ensure-live :
      (p : Process W) (q : ℕ) → a.live (ensure_initialized acl p).1.world q ≡ a.live p.world q
  unfolding ensure_initialized
  ensure-live p q = elim (Option-cases p.initialized) [
    | inl e ↦ rw e (a.live-init q p.world)
    | inr (s, e) ↦ rw e refl
  ]

  set_device-live :
      (i : ℕ) (p : Process W) (q : ℕ) → a.live (set_device acl i p).1.world q ≡ a.live p.world q
  unfolding set_device
  set_device-live i p q =
      ground (arith, ensure-live p q, a.live-set_device i q (ensure_initialized acl p).1.world)

  pub ascend_facade-Allocates : Allocates (ascend_facade acl m)
  ascend_facade-Allocates = record {
    live = λ t q. a.live t.process.world q;
    malloc-Answers = λ n t h. a.malloc-Answers n m.malloc_huge_first t.process.world h;
    malloc_async-Answers = λ n stream t h. inr (omega arith, refl, λ q. refl);
    live-free = λ p q t. a.live-free p q t.process.world;
    live-free_async = λ p stream q t. refl;
    live-set_type = λ d q t. refl;
    live-set_device = λ i q t. set_device-live i t.process q;
    live-synchronize = λ stream q t. a.live-synchronize stream q t.process.world;
    live-destroy = λ stream q t. a.live-destroy stream q t.process.world;
    live-create = λ q t. a.live-create q t.process.world;
  }

  -- With an ACL that allocates as it documents, a pool that was constructed on the Ascend backend
  -- is sound in every state that any allowed calls reach, although the backend refuses every
  -- asynchronous allocation and deallocation.
  pub ascend_pool-IsSound :
      (device : Device) (t t' : Thread W) (s : State) {n : Machine (Thread W)}
      → create (ascend_facade acl m) device t ≡ (ok s, t')
      → Run (ascend_facade acl m) (new_machine s t') n
      → IsSound (ascend_facade acl m) ascend_facade-Allocates n
  ascend_pool-IsSound device t t' s h r =
      create-Run-IsSound (ascend_facade acl m) ascend_facade-Allocates device t t' s h r
