-- ===== src/Ascend/DataTypes.antt =====
-- The data types of src/native/ascend/data_type_.h.
use infini_rt.Base.{ℕ, ◌≡◌, refl, Bool, true, false, Option, none, some, map, arith}
use infini_rt.Tensor.DataType.{
  DataType, int8, int16, int32, int64, uint8, uint16, uint32, uint64, float16, bfloat16, float32,
  float64, bool, all_int_types, data_type_int,
}
use infini_rt.Traits.{contains}

-- The enumerators of `aclDataType`.
pub record AclDataTypes : Type 0 where
  pub acl_float16 : ℕ
  pub acl_bf16 : ℕ
  pub acl_float : ℕ
  pub acl_int8 : ℕ
  pub acl_int16 : ℕ
  pub acl_int32 : ℕ
  pub acl_int64 : ℕ
  pub acl_uint8 : ℕ
  pub acl_uint16 : ℕ
  pub acl_uint32 : ℕ
  pub acl_uint64 : ℕ

-- `ToAclDtype`; none is the failed assertion.
unfoldable pub to_acl_dtype : AclDataTypes → DataType → Option ℕ
to_acl_dtype acl float16 = some acl.acl_float16
to_acl_dtype acl bfloat16 = some acl.acl_bf16
to_acl_dtype acl float32 = some acl.acl_float
to_acl_dtype acl int8 = some acl.acl_int8
to_acl_dtype acl int16 = some acl.acl_int16
to_acl_dtype acl int32 = some acl.acl_int32
to_acl_dtype acl int64 = some acl.acl_int64
to_acl_dtype acl uint8 = some acl.acl_uint8
to_acl_dtype acl uint16 = some acl.acl_uint16
to_acl_dtype acl uint32 = some acl.acl_uint32
to_acl_dtype acl uint64 = some acl.acl_uint64
to_acl_dtype acl float64 = none
to_acl_dtype acl bool = none

-- `IsIntegerDtype`.
unfoldable pub is_integer_dtype : DataType → Bool
is_integer_dtype int8 = true
is_integer_dtype int16 = true
is_integer_dtype int32 = true
is_integer_dtype int64 = true
is_integer_dtype uint8 = true
is_integer_dtype uint16 = true
is_integer_dtype uint32 = true
is_integer_dtype uint64 = true
is_integer_dtype float16 = false
is_integer_dtype bfloat16 = false
is_integer_dtype float32 = false
is_integer_dtype float64 = false
is_integer_dtype bool = false

abbrev integer_listed : DataType → Bool
integer_listed t = contains (map data_type_int all_int_types) (data_type_int t)

-- The switch and the list of src/data_type.h agree.
is_integer_dtype_lem : (t : DataType) → is_integer_dtype t ≡ integer_listed t
unfolding is_integer_dtype
is_integer_dtype_lem int8 = refl
is_integer_dtype_lem int16 = refl
is_integer_dtype_lem int32 = refl
is_integer_dtype_lem int64 = refl
is_integer_dtype_lem uint8 = refl
is_integer_dtype_lem uint16 = refl
is_integer_dtype_lem uint32 = refl
is_integer_dtype_lem uint64 = refl
is_integer_dtype_lem float16 = refl
is_integer_dtype_lem bfloat16 = refl
is_integer_dtype_lem float32 = refl
is_integer_dtype_lem float64 = refl
is_integer_dtype_lem bool = refl

-- ACL has every integer type.
to_acl_dtype-integer :
    (acl : AclDataTypes) (t : DataType)
    → is_integer_dtype t ≡ true
    → (n : ℕ) × (to_acl_dtype acl t ≡ some n)
unfolding is_integer_dtype to_acl_dtype
to_acl_dtype-integer acl int8 e = (_, refl)
to_acl_dtype-integer acl int16 e = (_, refl)
to_acl_dtype-integer acl int32 e = (_, refl)
to_acl_dtype-integer acl int64 e = (_, refl)
to_acl_dtype-integer acl uint8 e = (_, refl)
to_acl_dtype-integer acl uint16 e = (_, refl)
to_acl_dtype-integer acl uint32 e = (_, refl)
to_acl_dtype-integer acl uint64 e = (_, refl)
to_acl_dtype-integer acl float16 e = absurd (ground arith)
to_acl_dtype-integer acl bfloat16 e = absurd (ground arith)
to_acl_dtype-integer acl float32 e = absurd (ground arith)
to_acl_dtype-integer acl float64 e = absurd (ground arith)
to_acl_dtype-integer acl bool e = absurd (ground arith)
