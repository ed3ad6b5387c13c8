-- ===== src/Tensor/Float16.antt =====
-- `Float16` of src/data_type.h, by the bit patterns of both formats. The exponent is the biased one
-- of the float, 127 more than the `exponent` of the code.
use Prim.Native.Nat.{bit_and, bit_or}
use native.Mathlib.Nat.{mul_assoc}
use infini_rt.Base.{
  ℕ, zero, suc, ◌+◌, ◌-◌, ◌*◌, ◌/◌, ◌%◌, ◌^◌, ◌≡◌, refl, ◌==◌, leb, if◌then◌else◌, not, ◌&&◌, ◌≤◌,
  ◌<◌, ◌≢◌, ==_ne, arith, Bool-cases, inl, inr,
}

unfoldable pub float16_from_float : ℕ → ℕ
float16_from_float f32 =
    let sign = bit_and (f32 / 2 ^ 16) 32768 in
    let exponent = f32 / 2 ^ 23 % 256 in
    let mantissa = f32 % 2 ^ 23 in
    let rounded = mantissa + (4095 + mantissa / 2 ^ 13 % 2) in
    let full = bit_or mantissa (2 ^ 23) in
    let shift = 126 - exponent in
    let bias = 2 ^ (shift - 1) - 1 + full / 2 ^ shift % 2 in
    if leb 143 exponent
    then if (exponent == 255) && not (mantissa == 0) then bit_or sign 32256 else bit_or sign 31744
    else if leb 113 exponent
    then bit_or sign ((exponent - 112) * 2 ^ 10 + rounded / 2 ^ 13) % 2 ^ 16
    else if leb 102 exponent
    then bit_or sign ((full + bias) / 2 ^ shift) % 2 ^ 16
    else sign

-- The loop of `ToFloat`: a nonzero 10-bit mantissa has its bit 10 after ten shifts at most.
unfoldable pub normalize : ℕ → ℕ → ℕ → ℕ × ℕ
normalize zero mantissa exponent = (mantissa, exponent)
normalize (suc fuel) mantissa exponent =
    let rest = normalize fuel (mantissa * 2) (exponent - 1) in
    if mantissa / 2 ^ 10 % 2 == 0 then rest else (mantissa, exponent)

abbrev power : ℕ → ℕ
power zero = 1
power (suc n) = 2 * power n

normalize-enough :
    (fuel mantissa exponent : ℕ)
    → 2 ^ 10 ≤ mantissa * power fuel
    → mantissa < 2 ^ 11
    → (2 ^ 10 ≤ (normalize fuel mantissa exponent).0)
      × ((normalize fuel mantissa exponent).0 < 2 ^ 11)
unfolding normalize
normalize-enough zero mantissa exponent low high = (omega arith, high)
normalize-enough (suc fuel) mantissa exponent low high =
    let doubled : 2 ^ 10 ≤ mantissa * 2 * power fuel =
      omega (arith, low, mul_assoc mantissa 2 (power fuel)) in
    elim (Bool-cases (mantissa / 2 ^ 10 % 2 == 0)) [
      | inl clear ↦
          rw clear (normalize-enough fuel (mantissa * 2) (exponent - 1) doubled (ground arith))
      | inr set ↦ rw set (ground arith, high)
    ]

-- Ten steps bring bit 10 into place for every mantissa that is not zero.
pub normalize_lem :
    (mantissa exponent : ℕ)
    → 0 < mantissa
    → mantissa < 2 ^ 10
    → (2 ^ 10 ≤ (normalize 10 mantissa exponent).0) × ((normalize 10 mantissa exponent).0 < 2 ^ 11)
normalize_lem mantissa exponent pos small =
    normalize-enough 10 mantissa exponent (omega arith) (omega arith)

-- Once bit 10 is in place, more steps change nothing.
normalize-more :
    (fuel more mantissa exponent : ℕ)
    → fuel ≤ more
    → 2 ^ 10 ≤ (normalize fuel mantissa exponent).0
    → (normalize fuel mantissa exponent).0 < 2 ^ 11
    → normalize more mantissa exponent ≡ normalize fuel mantissa exponent
unfolding normalize
normalize-more zero zero mantissa exponent more low high = refl
normalize-more zero (suc k) mantissa exponent more low high =
    rw (==_ne (mantissa / 2 ^ 10 % 2) 0 (λ e. omega arith)) refl
normalize-more (suc fuel) zero mantissa exponent more low high = absurd (omega arith)
normalize-more (suc fuel) (suc k) mantissa exponent more low high =
    elim (Bool-cases (mantissa / 2 ^ 10 % 2 == 0)) [
      | inl clear ↦ rw clear (
          normalize-more fuel k (mantissa * 2) (exponent - 1) (omega arith)
            (ground (arith, low, clear)) (ground (arith, high, clear)))
      | inr set ↦ rw set refl
    ]

-- The loop of ToFloat ends for every 10-bit mantissa that is not zero: after ten steps its test
-- is false, and no number of further steps would change the result.
pub normalize-stops :
    (mantissa exponent more : ℕ)
    → 0 < mantissa
    → mantissa < 2 ^ 10
    → 10 ≤ more
    → ((normalize 10 mantissa exponent).0 / 2 ^ 10 % 2 ≢ 0)
      × (normalize more mantissa exponent ≡ normalize 10 mantissa exponent)
normalize-stops mantissa exponent more pos small enough =
    let (low, high) = normalize_lem mantissa exponent pos small in
    ((λ e. omega (arith, low, high, e)), normalize-more 10 more mantissa exponent enough low high)

unfoldable pub float16_to_float : ℕ → ℕ
unfolding normalize
float16_to_float bits =
    let sign = bit_and bits 32768 * 2 ^ 16 in
    let exponent = bits / 2 ^ 10 % 32 in
    let mantissa = bits % 2 ^ 10 in
    let (shifted, lowered) = normalize 10 mantissa 113 in
    if exponent == 31
    then bit_or (bit_or sign 2139095040) (mantissa * 2 ^ 13)
    else if exponent == 0
    then if mantissa == 0
      then sign
      else bit_or (bit_or sign (lowered * 2 ^ 23)) (shifted % 2 ^ 10 * 2 ^ 13)
    else bit_or (bit_or sign ((exponent + 112) * 2 ^ 23)) (mantissa * 2 ^ 13)

-- One, the largest finite value, the smallest subnormal one, and an infinity.
float16_of_one : float16_from_float (float16_to_float 15360) ≡ 15360
unfolding float16_from_float float16_to_float
float16_of_one = refl

float16_of_largest : float16_from_float (float16_to_float 31743) ≡ 31743
unfolding float16_from_float float16_to_float
float16_of_largest = refl

float16_of_smallest : float16_from_float (float16_to_float 32769) ≡ 32769
unfolding float16_from_float float16_to_float
float16_of_smallest = refl

float16_of_infinity : float16_from_float (float16_to_float 64512) ≡ 64512
unfolding float16_from_float float16_to_float
float16_of_infinity = refl
