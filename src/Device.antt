-- ===== src/Device.antt =====
-- `Device` of src/device.h: the device types, their numbers and names, and equality.
use Prim.Native.String.{String}
use text.Mathlib.Text.{◌==◌ as str_eq}
use infini_rt.Base.{ℕ, Bool, ◌&&◌, ◌==◌, List, [], ◌∷◌, Option}
use infini_rt.ConstexprMap.{at}

pub data DeviceType : Type 0 where
  cpu nvidia cambricon ascend metax moore iluvatar hygon thead mars count : DeviceType

abbrev pub type_int : DeviceType → ℕ
type_int cpu = 0
type_int nvidia = 1
type_int cambricon = 2
type_int ascend = 3
type_int metax = 4
type_int moore = 5
type_int iluvatar = 6
type_int hygon = 7
type_int thead = 8
type_int mars = 9
type_int count = 10

-- Comparison of two enumerators.
abbrev pub type_eq : DeviceType → DeviceType → Bool
type_eq a b = type_int a == type_int b

-- An `int` index is read as its bit pattern.
pub record Device : Type 0 where
  pub type : DeviceType
  pub index : ℕ

abbrev pub default_device : Device
default_device = record { type = cpu; index = 0 }

unfoldable pub device_eq : Device → Device → Bool
device_eq a b = type_eq a.type b.type && (a.index == b.index)

abbrev pub all_device_types : List DeviceType
all_device_types =
    cpu ∷ nvidia ∷ cambricon ∷ ascend ∷ metax ∷ moore ∷ iluvatar ∷ hygon ∷ thead ∷ mars ∷ []

abbrev pub device_to_desc : List (DeviceType × String)
device_to_desc =
    (cpu, "cpu")
    ∷ (nvidia, "nvidia")
    ∷ (cambricon, "cambricon")
    ∷ (ascend, "ascend")
    ∷ (metax, "metax")
    ∷ (moore, "moore")
    ∷ (iluvatar, "iluvatar")
    ∷ (hygon, "hygon")
    ∷ (thead, "thead")
    ∷ (mars, "mars")
    ∷ []

abbrev pub desc_to_device : List (String × DeviceType)
desc_to_device =
    ("cpu", cpu)
    ∷ ("nvidia", nvidia)
    ∷ ("cambricon", cambricon)
    ∷ ("ascend", ascend)
    ∷ ("metax", metax)
    ∷ ("moore", moore)
    ∷ ("iluvatar", iluvatar)
    ∷ ("hygon", hygon)
    ∷ ("thead", thead)
    ∷ ("mars", mars)
    ∷ []

-- `none` is the abort of `ConstexprMap::at`.
unfoldable pub type_from_string : String → Option DeviceType
unfolding at
type_from_string name = at str_eq desc_to_device name

unfoldable pub string_from_type : DeviceType → Option String
unfolding at
string_from_type t = at type_eq device_to_desc t
