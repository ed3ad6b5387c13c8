-- ===== src/Dispatcher/Enums.antt =====
-- What the dispatchers for data types and devices, of src/dispatcher.h, call.
use Prim.Native.String.{String}
use mathlib.Core.List.{map-map}
use infini_rt.Base.{ℕ, ◌≡◌, refl, ap, ◌∙◌, ◌++◌, Bool, true, false, ◌&&◌, List, [], ◌∷◌, map, arith}
use infini_rt.Device.{DeviceType, type_int}
use infini_rt.Tensor.DataType.{DataType, data_type_int}
use infini_rt.Traits.{contains}
use infini_rt.Dispatcher.Outcome.{Action, ReturnType, Result}
use infini_rt.Dispatcher.Multi.{Dimension, to_enum}
use infini_rt.Dispatcher.Typed.{
  Enumerators, dimension_of, dispatch_data_types, dispatch_devices, dispatch_keys,
  data_type_multi_adapter,
}
use infini_rt.Dispatcher.Resolved.{
  all_allowed, to_enums, dispatch_values_lem, dispatch_values-all_allowed, resolved,
}

module _ {E : Type 0} (number : E → ℕ) where
  -- One enumerator for each list, in the list.
  abbrev pub listed : List (Enumerators E) → List E → Bool
  listed [] [] = true
  listed [] (e ∷ es) = false
  listed (l ∷ ls) [] = false
  listed (l ∷ ls) (e ∷ es) = contains (number l.head ∷ map number l.tail) (number e) && listed ls es

module _ {E : Type 0} (width : ℕ) (number : E → ℕ)
    (fits : (e : E) → to_enum width (number e) ≡ number e) where
  listed-all_allowed :
      (ls : List (Enumerators E)) (es : List E)
      → all_allowed (map (dimension_of width number) ls) (map number es) ≡ listed number ls es
  listed-all_allowed [] [] = refl
  listed-all_allowed [] (e ∷ es) = refl
  listed-all_allowed (l ∷ ls) [] = refl
  listed-all_allowed (l ∷ ls) (e ∷ es) = rw (fits e, listed-all_allowed ls es) refl

  listed-to_enums :
      (ls : List (Enumerators E)) (es : List E)
      → listed number ls es ≡ true
      → to_enums (map (dimension_of width number) ls) (map number es) ≡ map number es
  listed-to_enums [] [] h = refl
  listed-to_enums [] (e ∷ es) h = absurd (ground (arith, h))
  listed-to_enums (l ∷ ls) [] h = absurd (ground (arith, h))
  listed-to_enums (l ∷ ls) (e ∷ es) h = rw (fits e, listed-to_enums ls es (ground (arith, h))) refl

data_type-fits : (d : DataType) → to_enum 8 (data_type_int d) ≡ data_type_int d
data_type-fits d = ground arith

device-fits : (d : DeviceType) → to_enum 32 (type_int d) ≡ type_int d
device-fits d = ground arith

resolved-to_enums :
    (r : ReturnType) (context : String) (dimensions : List Dimension) (xs ys items : List ℕ)
    → to_enums dimensions xs ≡ to_enums dimensions ys
    → resolved r context dimensions xs items ≡ resolved r context dimensions ys items
resolved-to_enums r context [] xs ys items h = refl
resolved-to_enums r context (d ∷ rest) [] [] items h = refl
resolved-to_enums r context (d ∷ rest) [] (y ∷ ys) items h = absurd (ground (arith, h))
resolved-to_enums r context (d ∷ rest) (x ∷ xs) [] items h = absurd (ground (arith, h))
resolved-to_enums r context (d ∷ rest) (x ∷ xs) (y ∷ ys) items h =
    let e : to_enum d.width x ≡ to_enum d.width y = ground (arith, h) in
    let t : to_enums rest xs ≡ to_enums rest ys = ground (arith, h) in
    rw (e, resolved-to_enums r context rest xs ys (items ++ (to_enum d.width y ∷ [])) t) refl

module _ {W : Type 0} (r : ReturnType) where
  -- Where there is one data type for each list, in that list, the dispatch of data types calls
  -- the functor once, with the C++ types of those data types in their order, and ends as the call
  -- does.
  pub dispatch_data_types_lem :
      {T : Type 0} (type_of : ℕ → T) (lists : List (Enumerators DataType)) (dtypes : List DataType)
      (func : List T → Action W (Result r)) (context : String) (w : W)
      → listed data_type_int lists dtypes ≡ true
      → dispatch_data_types r type_of lists dtypes func context w
        ≡ func (map (λ d. type_of (data_type_int d)) dtypes) w
  unfolding dispatch_data_types
  dispatch_data_types_lem type_of lists dtypes func context w h =
      dispatch_values-all_allowed r (map data_type_int dtypes)
        (data_type_multi_adapter r type_of func) context (map (dimension_of 8 data_type_int) lists)
        w (listed-all_allowed 8 data_type_int data_type-fits lists dtypes ∙ h)
      ∙ ap (λ v. func (map type_of v) w)
          (listed-to_enums 8 data_type_int data_type-fits lists dtypes h)
      ∙ ap (λ v. func v w) (map-map type_of data_type_int dtypes)

  -- Where there is one device type for each list, in that list, the functor is called once, with
  -- those device types in their order.
  pub dispatch_devices_lem :
      (lists : List (Enumerators DeviceType)) (devices : List DeviceType)
      (func : List ℕ → Action W (Result r)) (context : String) (w : W)
      → listed type_int lists devices ≡ true
      → dispatch_devices r lists devices func context w ≡ func (map type_int devices) w
  unfolding dispatch_devices
  dispatch_devices_lem lists devices func context w h =
      dispatch_values-all_allowed r (map type_int devices) func context
        (map (dimension_of 32 type_int) lists) w
        (listed-all_allowed 32 type_int device-fits lists devices ∙ h)
      ∙ ap (λ v. func v w) (listed-to_enums 32 type_int device-fits lists devices h)

  -- The dispatch of int64_t keys depends only on what each key is cast to: keys that differ by a
  -- multiple of 2 to the width of the list's type are not told apart.
  pub dispatch_keys-to_enums :
      (lists : List Dimension) (xs ys : List ℕ) (func : List ℕ → Action W (Result r))
      (context : String) (w : W)
      → to_enums lists xs ≡ to_enums lists ys
      → dispatch_keys r lists xs func context w ≡ dispatch_keys r lists ys func context w
  dispatch_keys-to_enums lists xs ys func context w h =
      rw
        (
          dispatch_values_lem r xs func context lists 0 [] w,
          dispatch_values_lem r ys func context lists 0 [] w,
          resolved-to_enums r context lists xs ys [] h,
        )
        refl
