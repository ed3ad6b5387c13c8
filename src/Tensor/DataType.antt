-- ===== src/Tensor/DataType.antt =====
-- The data types, their tables and the half-precision conversions of src/data_type.h.
use Prim.Native.String.{String}
use text.Mathlib.Text.{◌==◌ as str_eq}
use infini_rt.Base.{ℕ, ◌+◌, ◌*◌, ◌/◌, ◌%◌, ◌^◌, ◌==◌, List, [], ◌∷◌, ◌++◌, Option, Bool}
use infini_rt.ConstexprMap.{at}

pub data DataType : Type 0 where
  int8 int16 int32 int64 uint8 uint16 uint32 uint64 float16 bfloat16 float32 float64 bool : DataType

abbrev pub data_type_int : DataType → ℕ
data_type_int int8 = 0
data_type_int int16 = 1
data_type_int int32 = 2
data_type_int int64 = 3
data_type_int uint8 = 4
data_type_int uint16 = 5
data_type_int uint32 = 6
data_type_int uint64 = 7
data_type_int float16 = 8
data_type_int bfloat16 = 9
data_type_int float32 = 10
data_type_int float64 = 11
data_type_int bool = 12

abbrev pub data_type_eq : DataType → DataType → Bool
data_type_eq a b = data_type_int a == data_type_int b

abbrev pub data_type_to_size : List (DataType × ℕ)
data_type_to_size =
    (int8, 1)
    ∷ (int16, 2)
    ∷ (int32, 4)
    ∷ (int64, 8)
    ∷ (uint8, 1)
    ∷ (uint16, 2)
    ∷ (uint32, 4)
    ∷ (uint64, 8)
    ∷ (float16, 2)
    ∷ (bfloat16, 2)
    ∷ (float32, 4)
    ∷ (float64, 8)
    ∷ (bool, 1)
    ∷ []

abbrev pub data_type_to_desc : List (DataType × String)
data_type_to_desc =
    (int8, "int8")
    ∷ (int16, "int16")
    ∷ (int32, "int32")
    ∷ (int64, "int64")
    ∷ (uint8, "uint8")
    ∷ (uint16, "uint16")
    ∷ (uint32, "uint32")
    ∷ (uint64, "uint64")
    ∷ (float16, "float16")
    ∷ (bfloat16, "bfloat16")
    ∷ (float32, "float32")
    ∷ (float64, "float64")
    ∷ (bool, "bool")
    ∷ []

abbrev pub string_to_data_type : List (String × DataType)
string_to_data_type =
    ("int8", int8)
    ∷ ("int16", int16)
    ∷ ("int32", int32)
    ∷ ("int64", int64)
    ∷ ("uint8", uint8)
    ∷ ("uint16", uint16)
    ∷ ("uint32", uint32)
    ∷ ("uint64", uint64)
    ∷ ("float16", float16)
    ∷ ("bfloat16", bfloat16)
    ∷ ("float32", float32)
    ∷ ("float64", float64)
    ∷ ("bool", bool)
    ∷ []

-- `kDataTypeToSize.at`, `kDataTypeToDesc.at` and `kStringToDataType.at`; `none` is their abort.
unfoldable pub size_of_type : DataType → Option ℕ
unfolding at
size_of_type t = at data_type_eq data_type_to_size t

unfoldable pub desc_of_type : DataType → Option String
unfolding at
desc_of_type t = at data_type_eq data_type_to_desc t

unfoldable pub type_of_desc : String → Option DataType
unfolding at
type_of_desc name = at str_eq string_to_data_type name

abbrev pub float_types : List DataType
float_types = float32 ∷ float64 ∷ []

abbrev pub reduced_float_types : List DataType
reduced_float_types = float16 ∷ bfloat16 ∷ []

abbrev pub int_types : List DataType
int_types = int8 ∷ int16 ∷ int32 ∷ int64 ∷ []

abbrev pub uint_types : List DataType
uint_types = uint8 ∷ uint16 ∷ uint32 ∷ uint64 ∷ []

abbrev pub bit_types_8 : List DataType
bit_types_8 = int8 ∷ uint8 ∷ []

abbrev pub bit_types_16 : List DataType
bit_types_16 = int16 ∷ uint16 ∷ float16 ∷ bfloat16 ∷ []

abbrev pub bit_types_32 : List DataType
bit_types_32 = int32 ∷ uint32 ∷ float32 ∷ []

abbrev pub bit_types_64 : List DataType
bit_types_64 = int64 ∷ uint64 ∷ float64 ∷ []

-- `ConcatType` is the concatenation.
abbrev pub all_float_types : List DataType
all_float_types = float_types ++ reduced_float_types

abbrev pub all_int_types : List DataType
all_int_types = int_types ++ uint_types

abbrev pub all_types : List DataType
all_types = all_float_types ++ all_int_types

-- `BFloat16`, by the bit patterns of both formats. `& 1` is `% 2`.
unfoldable pub bfloat16_from_float : ℕ → ℕ
bfloat16_from_float bits32 =
    let rounding_bias = 32767 + bits32 / 2 ^ 16 % 2 in
    (bits32 + rounding_bias) % 2 ^ 32 / 2 ^ 16 % 2 ^ 16

unfoldable pub bfloat16_to_float : ℕ → ℕ
bfloat16_to_float bits = bits * 2 ^ 16 % 2 ^ 32
