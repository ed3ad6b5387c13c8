-- ===== src/Dispatcher/Active.antt =====
-- `ActiveDevices` of src/device.h, and the dispatch of a device type over it. `enabled` is
-- `DeviceEnabled` by the number of the device type.
use Prim.Native.String.{String}
use infini_rt.Base.{ℕ, ◌≡◌, refl, Bool, true, not, ◌&&◌, if◌then◌else◌, List, map, arith}
use infini_rt.Device.{DeviceType, count, type_int, type_eq, all_device_types}
use infini_rt.Traits.{contains, filter_list}
use infini_rt.Dispatcher.Outcome.{Action, failed, ReturnType, Result}
use infini_rt.Dispatcher.Single.{dispatch_func}
use infini_rt.Dispatcher.Reached.{refusal, dispatch_func_lem, contains-filter_list}

unfoldable pub active_devices : (ℕ → Bool) → List ℕ
active_devices enabled = filter_list enabled (map type_int all_device_types)

contains-all_device_types :
    (d : DeviceType) → contains (map type_int all_device_types) (type_int d) ≡ not (type_eq d count)
contains-all_device_types d = ground arith

module _ {W : Type 0} where
  -- The dispatch of a device type over the active devices reaches the functor exactly where the
  -- build enables the type. The type `kCount` is never active.
  pub active_devices-dispatch_func :
      (r : ReturnType) (enabled : ℕ → Bool) (device : DeviceType) (func : ℕ → Action W (Result r))
      (context : String) (w : W)
      → dispatch_func r (λ tag. true) (active_devices enabled) (type_int device) func context w ≡ (
          if enabled (type_int device) && not (type_eq device count)
          then func (type_int device) w
          else (
            failed (
                refusal r
                  (filter_list (λ tag. true) (active_devices enabled))
                  (type_int device)
                  context),
            w,
          ))
  unfolding active_devices
  active_devices-dispatch_func r enabled device func context w =
      rw
        (
          dispatch_func_lem r (λ tag. true) (active_devices enabled) (type_int device) func context
              w,
          contains-filter_list enabled (map type_int all_device_types) (type_int device),
          contains-all_device_types device,
        )
        refl
