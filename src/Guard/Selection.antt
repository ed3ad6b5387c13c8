-- ===== src/Guard/Selection.antt =====
-- What a `DeviceGuard` does to this thread's device selection, while it lives and when it ends.
use infini_rt.Base.{ℕ, ◌≡◌, ◌≢◌, ◌↔◌, true, false, arith}
use infini_rt.Device.{DeviceType, type_eq, count, cpu, all_device_types}
use infini_rt.Facade.{Facade, SelectsDevices}
use infini_rt.Guard.{construct, select, restore, destroy, enabled}

type_eq→eq : (a b : DeviceType) → type_eq a b ≡ true → a ≡ b
type_eq→eq a b h = ground arith

module _ {W : Type 0} (f : Facade W) (laws : SelectsDevices f) where
  -- A guard that is active has selected its device type and index.
  pub active-selects :
      (t : DeviceType) (i : ℕ) (w : W)
      → (construct f t i w).0.active ≡ true
      → (f.runtime_device_type (construct f t i w).1 ≡ t)
        × (f.get_device (construct f t i w).1 ≡ (0, i))
  unfolding construct select restore
  active-selects t i w h = ground (
    arith,
    type_eq→eq (f.runtime_device_type w) t,
    laws.type-set_type t w,
    laws.type-set_device i (f.set_runtime_device_type t w),
    laws.get_device-set_device i (f.set_runtime_device_type t w),
  )

  -- If a guard became active, the previous index could be read, and setting it succeeds when the
  -- guard ends, then after its end the device type and the index are those from before its start,
  -- whatever the world between was.
  pub active-restores :
      (t : DeviceType) (i j : ℕ) (w later : W)
      → (construct f t i w).0.active ≡ true
      → f.get_device w ≡ (0, j)
      → (f.set_device j (f.set_runtime_device_type (f.runtime_device_type w) later)).0 ≡ 0
      → (f.runtime_device_type (destroy f (construct f t i w).0 later) ≡ f.runtime_device_type w)
        × (f.get_device (destroy f (construct f t i w).0 later) ≡ (0, j))
  unfolding construct select restore destroy
  active-restores t i j w later h g s = ground (
    arith,
    laws.type-set_type (f.runtime_device_type w) later,
    laws.type-set_device j (f.set_runtime_device_type (f.runtime_device_type w) later),
    laws.get_device-set_device j (f.set_runtime_device_type (f.runtime_device_type w) later),
  )

  -- A guard that could not select its target leaves the previous device type selected, and its
  -- end does nothing.
  pub inactive-restores :
      (t : DeviceType) (i : ℕ) (w later : W)
      → (construct f t i w).0.active ≡ false
      → (f.runtime_device_type (construct f t i w).1 ≡ f.runtime_device_type w)
        × (destroy f (construct f t i w).0 later ≡ later)
  unfolding construct select restore destroy
  inactive-restores t i w later h =
      let (status, index) = f.get_device w in
      let tried = (f.set_device i (f.set_runtime_device_type t w)).1 in
      let back = f.set_runtime_device_type (f.runtime_device_type w) tried in
      ground
        (arith, laws.type-set_type (f.runtime_device_type w) tried, laws.type-set_device index back)

-- A device type passes the guard's test exactly if it is not kCount and the build enables it.
pub enabled_iff :
    {W : Type 0} (f : Facade W) (t : DeviceType)
    → (enabled f t all_device_types ≡ true) ↔ ((t ≢ count) × (f.device_enabled t ≡ true))
unfolding enabled
enabled_iff f cpu = ground arith
enabled_iff f _ = ground arith
