-- ===== src/Facade.antt =====
-- The runtime entry points that src/reusable_memory_pool.cc and device_guard.h call. Their bodies
-- are generated at build time, so they are fields of a record that the models take as a parameter.
-- A status is a number, with 0 for `kSuccess`; a pointer or stream is a number, with 0 for null.
use infini_rt.Base.{ℕ, ◌<◌, ◌≡◌, ◌≢◌, Bool, true, false, ◌==◌, ◌&&◌, if◌then◌else◌, ◌⊎◌}
use infini_rt.Device.{DeviceType}

pub record Facade (W : Type 0) : Type 0 where
  -- `DeviceEnabled<type>::value` and `defined(WITH_NVIDIA)`, fixed by the build.
  pub device_enabled : DeviceType → Bool
  pub with_nvidia : Bool
  -- This thread's selected device type and the index that the backend has for it.
  pub runtime_device_type : W → DeviceType
  pub set_runtime_device_type : DeviceType → W → W
  pub get_device : W → ℕ × ℕ
  pub set_device : ℕ → W → ℕ × W
  -- Status, what the out parameter holds afterwards, and the new world.
  pub malloc : ℕ → W → ℕ × ℕ × W
  pub malloc_async : ℕ → ℕ → W → ℕ × ℕ × W
  pub free : ℕ → W → ℕ × W
  pub free_async : ℕ → ℕ → W → ℕ × W
  pub stream_create : W → ℕ × ℕ × W
  pub stream_destroy : ℕ → W → ℕ × W
  pub stream_synchronize : ℕ → W → ℕ × W
  -- `cudaStreamIsCapturing`: status, and whether a capture is under way.
  pub is_capturing : ℕ → W → ℕ × Bool

-- What the runtime documents of device selection.
pub record SelectsDevices {W : Type 0} (f : Facade W) : Type 0 where
  pub type-set_type :
      (t : DeviceType) (w : W) → f.runtime_device_type (f.set_runtime_device_type t w) ≡ t
  pub type-set_device :
      (i : ℕ) (w : W) → f.runtime_device_type (f.set_device i w).1 ≡ f.runtime_device_type w
  pub get_device-set_device :
      (i : ℕ) (w : W) → (f.set_device i w).0 ≡ 0 → f.get_device (f.set_device i w).1 ≡ (0, i)

-- An allocation gives a new address with the status of success, and a null pointer with any other.
abbrev pub Answers : {W : Type 0} → (W → ℕ → Bool) → W → ℕ → ℕ → W → Type 0
Answers live w status p w' =
    ((status ≡ 0)
      × (p ≢ 0)
      × (live w p ≡ false)
      × ((q : ℕ) → live w' q ≡ (if q == p then true else live w q)))
    ⊎ ((status ≢ 0) × (p ≡ 0) × ((q : ℕ) → live w' q ≡ live w q))

-- What the runtime documents of device memory. `live w p` says that the address `p` is allocated.
pub record Allocates {W : Type 0} (f : Facade W) : Type 0 where
  pub live : W → ℕ → Bool
  pub malloc-Answers :
      (n : ℕ) (w : W) → 0 < n → Answers live w (f.malloc n w).0 (f.malloc n w).1 (f.malloc n w).2
  pub malloc_async-Answers :
      (n st : ℕ) (w : W)
      → 0 < n
      → Answers live w (f.malloc_async n st w).0 (f.malloc_async n st w).1 (f.malloc_async n st w).2
  pub live-free :
      (p q : ℕ) (w : W)
      → live (f.free p w).1 q ≡ (if (f.free p w).0 == 0 && (q == p) then false else live w q)
  pub live-free_async :
      (p st q : ℕ) (w : W)
      → live (f.free_async p st w).1 q
        ≡ (if (f.free_async p st w).0 == 0 && (q == p) then false else live w q)
  pub live-set_type :
      (t : DeviceType) (q : ℕ) (w : W) → live (f.set_runtime_device_type t w) q ≡ live w q
  pub live-set_device : (i q : ℕ) (w : W) → live (f.set_device i w).1 q ≡ live w q
  pub live-synchronize : (st q : ℕ) (w : W) → live (f.stream_synchronize st w).1 q ≡ live w q
  pub live-destroy : (st q : ℕ) (w : W) → live (f.stream_destroy st w).1 q ≡ live w q
  pub live-create : (q : ℕ) (w : W) → live (f.stream_create w).2 q ≡ live w q
