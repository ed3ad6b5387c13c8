-- ===== src/Tensor/Tables.antt =====
-- The tables of src/data_type.h agree with each other, and `BFloat16` rounds to the nearest pattern.
use Prim.Native.String.{String}
use infini_rt.Base.{ℕ, ◌+◌, ◌*◌, ◌^◌, ◌≤◌, ◌<◌, ◌≡◌, refl, some, arith}
use infini_rt.Tensor.DataType.{
  DataType, size_of_type, desc_of_type, type_of_desc, bfloat16_from_float, bfloat16_to_float, int8,
  int16, int32, int64, uint8, uint16, uint32, uint64, float16, bfloat16, float32, float64, bool,
}

-- Every data type has a size of at most eight bytes and a name, and its name leads back to it.
pub desc_round_trip :
    (t : DataType)
    → ((n : ℕ) × (size_of_type t ≡ some n) × (0 < n) × (n ≤ 8))
      × ((name : String) × (desc_of_type t ≡ some name) × (type_of_desc name ≡ some t))
unfolding size_of_type desc_of_type type_of_desc
desc_round_trip int8 = ((1, refl, omega arith, omega arith), ("int8", refl, refl))
desc_round_trip int16 = ((2, refl, omega arith, omega arith), ("int16", refl, refl))
desc_round_trip int32 = ((4, refl, omega arith, omega arith), ("int32", refl, refl))
desc_round_trip int64 = ((8, refl, omega arith, omega arith), ("int64", refl, refl))
desc_round_trip uint8 = ((1, refl, omega arith, omega arith), ("uint8", refl, refl))
desc_round_trip uint16 = ((2, refl, omega arith, omega arith), ("uint16", refl, refl))
desc_round_trip uint32 = ((4, refl, omega arith, omega arith), ("uint32", refl, refl))
desc_round_trip uint64 = ((8, refl, omega arith, omega arith), ("uint64", refl, refl))
desc_round_trip float16 = ((2, refl, omega arith, omega arith), ("float16", refl, refl))
desc_round_trip bfloat16 = ((2, refl, omega arith, omega arith), ("bfloat16", refl, refl))
desc_round_trip float32 = ((4, refl, omega arith, omega arith), ("float32", refl, refl))
desc_round_trip float64 = ((8, refl, omega arith, omega arith), ("float64", refl, refl))
desc_round_trip bool = ((1, refl, omega arith, omega arith), ("bool", refl, refl))

-- A 16-bit pattern that is widened to a float and narrowed again is what it was.
pub bfloat16_round_trip : (b : ℕ) → b < 2 ^ 16 → bfloat16_from_float (bfloat16_to_float b) ≡ b
unfolding bfloat16_from_float bfloat16_to_float
bfloat16_round_trip b h = omega arith

-- Where 2 ^ 15 more than the pattern of a float stays below 2 ^ 32, narrowing it gives a 16-bit
-- pattern that is at most 2 ^ 15 away, in units of the float's last place.
pub bfloat16_nearest :
    (b : ℕ)
    → b + 2 ^ 15 < 2 ^ 32
    → (bfloat16_from_float b * 2 ^ 16 ≤ b + 2 ^ 15) × (b ≤ bfloat16_from_float b * 2 ^ 16 + 2 ^ 15)
unfolding bfloat16_from_float
bfloat16_nearest b h = (omega arith, omega arith)

-- Narrowing turns each NaN with a pattern from 0x7FFF8000 to 0x7FFFFFFF into 0x8000, which is
-- negative zero.
pub bfloat16_nan :
    (b : ℕ) → 32767 * 2 ^ 16 + 2 ^ 15 ≤ b → b < 2 ^ 31 → bfloat16_from_float b ≡ 2 ^ 15
unfolding bfloat16_from_float
bfloat16_nan b low high = omega arith
