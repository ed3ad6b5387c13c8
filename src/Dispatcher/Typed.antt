-- ===== src/Dispatcher/Typed.antt =====
-- The dispatchers for data types, devices and lists, of src/dispatcher.h. `type_of` is
-- `TypeMapType<kDev, ...>` for the number of a data type.
use Prim.Native.String.{String}
use infini_rt.Base.{ℕ, true, List, [], map}
use infini_rt.Device.{DeviceType, type_int}
use infini_rt.Tensor.DataType.{DataType, data_type_int}
use infini_rt.Dispatcher.Outcome.{Action, ReturnType, Result}
use infini_rt.Dispatcher.Single.{dispatch_func}
use infini_rt.Dispatcher.Multi.{Dimension, dispatch_values}

-- A list of enumerators that is not empty.
pub record Enumerators (E : Type 0) : Type 0 where
  pub head : E
  pub tail : List E

abbrev pub dimension_of : {E : Type 0} → ℕ → (E → ℕ) → Enumerators E → Dimension
dimension_of width number l = record {
  width = width;
  head = number l.head;
  tail = map number l.tail;
}

module _ {W : Type 0} (r : ReturnType) where
  module _ {T : Type 0} (type_of : ℕ → T) where
    -- `DataTypeAdapter` and `DataTypeMultiAdapter`.
    abbrev pub data_type_adapter : (T → Action W (Result r)) → ℕ → Action W (Result r)
    data_type_adapter func dtype = func (type_of dtype)

    abbrev pub data_type_multi_adapter :
        (List T → Action W (Result r)) → List ℕ → Action W (Result r)
    data_type_multi_adapter func dtypes = func (map type_of dtypes)

    unfoldable pub dispatch_data_type :
        List DataType → DataType → (T → Action W (Result r)) → String → Action W (Result r)
    dispatch_data_type allowed dtype func context =
        dispatch_func r (λ tag. true) (map data_type_int allowed) (data_type_int dtype)
          (data_type_adapter func) context

    -- `DataType` is an `int8_t`, and its numbers are not negative.
    unfoldable pub dispatch_data_types :
        List (Enumerators DataType)
        → List DataType
        → (List T → Action W (Result r))
        → String
        → Action W (Result r)
    dispatch_data_types lists dtypes func context =
        dispatch_values r (map data_type_int dtypes) (data_type_multi_adapter func) context
          (map (dimension_of 8 data_type_int) lists) 0 []

  -- `DeviceAdapter` and `DeviceMultiAdapter`.
  abbrev pub device_adapter : (ℕ → Action W (Result r)) → ℕ → Action W (Result r)
  device_adapter func device = func device

  abbrev pub device_multi_adapter : (List ℕ → Action W (Result r)) → List ℕ → Action W (Result r)
  device_multi_adapter func devices = func devices

  unfoldable pub dispatch_device :
      List DeviceType → DeviceType → (ℕ → Action W (Result r)) → String → Action W (Result r)
  dispatch_device allowed device func context =
      dispatch_func r (λ tag. true) (map type_int allowed) (type_int device) (device_adapter func)
        context

  -- `Device::Type` is an `int`.
  unfoldable pub dispatch_devices :
      List (Enumerators DeviceType)
      → List DeviceType
      → (List ℕ → Action W (Result r))
      → String
      → Action W (Result r)
  dispatch_devices lists devices func context =
      dispatch_values r (map type_int devices) (device_multi_adapter func) context
        (map (dimension_of 32 type_int) lists) 0 []

  -- `DispatchFuncListAliasImpl` for a device type, and for a data type.
  abbrev pub dispatch_device_alias :
      List DeviceType → DeviceType → (ℕ → Action W (Result r)) → String → Action W (Result r)
  dispatch_device_alias items value func context = dispatch_device items value func context

  abbrev pub dispatch_data_type_alias :
      {T : Type 0}
      → (ℕ → T)
      → List DataType
      → DataType
      → (T → Action W (Result r))
      → String
      → Action W (Result r)
  dispatch_data_type_alias type_of items value func context =
      dispatch_data_type type_of items value func context

  -- The interface for `int64_t` keys.
  abbrev pub dispatch_keys :
      List Dimension → List ℕ → (List ℕ → Action W (Result r)) → String → Action W (Result r)
  dispatch_keys lists keys func context = dispatch_values r keys func context lists 0 []
