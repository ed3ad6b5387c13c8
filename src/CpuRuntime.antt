-- ===== src/CpuRuntime.antt =====
-- `Runtime<kCpu>` of src/native/cpu/runtime_.h, and the facade that a build with this backend alone
-- gives. `std::malloc` hands out addresses upwards, or a null pointer where `refuses` says so. The
-- out parameters are not null, as in every call from the pool and the guard.
use infini_rt.Base.{
  ℕ, suc, ◌<◌, ◌≡◌, refl, Bool, false, not, ◌&&◌, ◌==◌, if◌then◌else◌, ltb, leb, ◌||◌, ◌-◌, ◌%◌,
  List, ◌∷◌, count, remove, count-remove, arith, inl, inr, Bool-cases, ◌+◌,
}
use infini_rt.Device.{Device, DeviceType, cpu, type_eq}
use infini_rt.Facade.{Facade, SelectsDevices, Allocates, Answers}
use infini_rt.Pool.Machine.{State, ok}
use infini_rt.Pool.Entry.{create}
use infini_rt.Pool.Reach.{Machine, Run}
use infini_rt.Pool.Sound.{IsSound}
use infini_rt.Pool.Lifetime.{new_machine, create-Run-IsSound}
pub mod Events
pub mod MemInfo

-- `kErrorInvalidValue` and `kErrorMemoryAllocation`.
abbrev pub invalid_value : ℕ
invalid_value = 1

abbrev pub memory_allocation : ℕ
memory_allocation = 2

-- The selected device type of this thread, the last address of `std::malloc`, and what it gave.
pub record Host : Type 0 where
  pub selected : DeviceType
  pub top : ℕ
  pub held : List ℕ

unfoldable pub set_device : ℕ → Host → ℕ × Host
set_device device w = if not (device == 0) then (invalid_value, w) else (0, w)

abbrev pub get_device : Host → ℕ × ℕ
get_device w = (0, 0)

unfoldable pub malloc : (ℕ → Host → Bool) → ℕ → Host → ℕ × ℕ × Host
malloc refuses size w =
    if refuses size w
    then (if not (size == 0) then memory_allocation else 0, 0, w)
    else (0, suc w.top, record w { top = suc w.top; held = suc w.top ∷ w.held })

-- The pointer keeps the null that it had.
abbrev pub malloc_async : ℕ → ℕ → Host → ℕ × ℕ × Host
malloc_async size stream w = (invalid_value, 0, w)

abbrev pub free : ℕ → Host → ℕ × Host
free p w = (0, record w { held = remove p w.held })

abbrev pub free_async : ℕ → ℕ → Host → ℕ × Host
free_async p stream w = (invalid_value, w)

abbrev pub stream_create : Host → ℕ × ℕ × Host
stream_create w = (0, 0, w)

abbrev pub stream_destroy : ℕ → Host → ℕ × Host
stream_destroy stream w = (0, w)

abbrev pub stream_synchronize : ℕ → Host → ℕ × Host
stream_synchronize stream w = (0, w)

abbrev pub get_device_count : Host → ℕ × ℕ
get_device_count w = (0, 1)

abbrev pub device_synchronize : Host → ℕ × Host
device_synchronize w = (0, w)

abbrev pub malloc_host : (ℕ → Host → Bool) → ℕ → Host → ℕ × ℕ × Host
malloc_host refuses size w = malloc refuses size w

abbrev pub free_host : ℕ → Host → ℕ × Host
free_host p w = free p w

-- The bytes of memory, by their address. A copy or a fill of a null pointer is refused unless it is
-- empty; `std::memcpy` wants ranges that do not overlap.
unfoldable pub memcpy : ℕ → ℕ → ℕ → (ℕ → ℕ) → ℕ × (ℕ → ℕ)
memcpy dst src size bytes =
    if ((dst == 0) || (src == 0)) && not (size == 0)
    then (invalid_value, bytes)
    else (0, λ a. if leb dst a && ltb a (dst + size) then bytes (src + (a - dst)) else bytes a)

unfoldable pub memset : ℕ → ℕ → ℕ → (ℕ → ℕ) → ℕ × (ℕ → ℕ)
memset p value n bytes =
    if (p == 0) && not (n == 0)
    then (invalid_value, bytes)
    else (0, λ a. if leb p a && ltb a (p + n) then value % 256 else bytes a)

abbrev pub memcpy_async : ℕ → ℕ → ℕ → ℕ → (ℕ → ℕ) → ℕ × (ℕ → ℕ)
memcpy_async dst src size stream bytes = (invalid_value, bytes)

abbrev pub memset_async : ℕ → ℕ → ℕ → ℕ → (ℕ → ℕ) → ℕ × (ℕ → ℕ)
memset_async p value n stream bytes = (invalid_value, bytes)

-- The generated dispatch of a build whose one device type is `kCpu`.
abbrev pub cpu_facade : (ℕ → Host → Bool) → Facade Host
cpu_facade refuses = record {
  device_enabled = λ t. type_eq t cpu;
  with_nvidia = false;
  runtime_device_type = λ w. w.selected;
  set_runtime_device_type = λ t w. record w { selected = t };
  get_device = get_device;
  set_device = set_device;
  malloc = malloc refuses;
  malloc_async = malloc_async;
  free = free;
  free_async = free_async;
  stream_create = stream_create;
  stream_destroy = stream_destroy;
  stream_synchronize = stream_synchronize;
  is_capturing = λ stream w. (0, false);
}

-- The CPU backend does what the guard relies on.
pub cpu_facade-SelectsDevices : (refuses : ℕ → Host → Bool) → SelectsDevices (cpu_facade refuses)
unfolding set_device
cpu_facade-SelectsDevices refuses = record {
  type-set_type = λ t w. refl;
  type-set_device = λ i w. ground arith;
  get_device-set_device = λ i w h. ground arith;
}

abbrev allocated : Host → ℕ → Bool
allocated w p = ltb 0 (count p w.held) && ltb p (suc w.top)

malloc-Answers :
    (refuses : ℕ → Host → Bool) (n : ℕ) (w : Host)
    → 0 < n
    → Answers allocated w (malloc refuses n w).0 (malloc refuses n w).1 (malloc refuses n w).2
unfolding malloc
malloc-Answers refuses n w pos = elim (Bool-cases (refuses n w)) [
  | inl refused ↦ rw refused (inr (ground arith, refl, λ q. refl))
  | inr given ↦ rw given (inl (refl, omega arith, ground arith, λ q. ground arith))
]

-- The CPU backend does what the pool relies on.
pub cpu_facade-Allocates : (refuses : ℕ → Host → Bool) → Allocates (cpu_facade refuses)
unfolding set_device
cpu_facade-Allocates refuses = record {
  live = allocated;
  malloc-Answers = λ n w h. malloc-Answers refuses n w h;
  malloc_async-Answers = λ n stream w h. inr (omega arith, refl, λ q. refl);
  live-free = λ p q w. ground (arith, count-remove q p w.held);
  live-free_async = λ p stream q w. refl;
  live-set_type = λ t q w. refl;
  live-set_device = λ i q w. ground arith;
  live-synchronize = λ stream q w. refl;
  live-destroy = λ stream q w. refl;
  live-create = λ q w. refl;
}

-- The CPU backend, where malloc may refuse any request, meets what the pool relies on, so a pool
-- that was constructed on it is sound in every state that any allowed calls reach.
pub cpu_pool-IsSound :
    (refuses : ℕ → Host → Bool) (device : Device) (w w' : Host) (s : State) {n : Machine Host}
    → create (cpu_facade refuses) device w ≡ (ok s, w')
    → Run (cpu_facade refuses) (new_machine s w') n
    → IsSound (cpu_facade refuses) (cpu_facade-Allocates refuses) n
cpu_pool-IsSound refuses device w w' s h r =
    create-Run-IsSound (cpu_facade refuses) (cpu_facade-Allocates refuses) device w w' s h r
