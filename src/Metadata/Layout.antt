-- ===== src/Metadata/Layout.antt =====
-- The combined allocation of src/common/shape_strides_storage.h: one block for both arrays.
use infini_rt.Base.{
  ℕ, ◌+◌, ◌-◌, ◌*◌, ◌/◌, ◌%◌, ◌^◌, ◌≤◌, ◌<◌, ◌≡◌, ◌>>=◌, if◌then◌else◌, ltb, ◌==◌, ◌&&◌, not,
  Option, none, some, arith, u64_mod,
}

-- `none` is `std::abort`.
unfoldable pub checked_multiply : ℕ → ℕ → Option ℕ
checked_multiply left right =
    if not (right == 0) && ltb ((u64_mod - 1) / right) left then none else some (left * right)

unfoldable pub checked_add : ℕ → ℕ → Option ℕ
checked_add left right = if ltb (u64_mod - 1 - right) left then none else some (left + right)

unfoldable pub narrow_size : ℕ → Option ℕ
narrow_size size = if ltb (2 ^ 32 - 1) size then none else some size

-- `std::align`: how far a pointer moves to be a multiple of the alignment, if the space allows.
abbrev pub align_by : ℕ → ℕ → ℕ
align_by alignment p = (alignment - p % alignment) % alignment

unfoldable pub std_align : ℕ → ℕ → ℕ → ℕ → Option ℕ
std_align alignment size p space =
    let shift = align_by alignment p in if ltb space (size + shift) then none else some (p + shift)

-- `sizeof` and `alignof` of both element types.
abbrev pub element_bytes : ℕ
element_bytes = 8

-- How many bytes the constructor asks for.
unfoldable pub combined_bytes : ℕ → ℕ → Option ℕ
combined_bytes shape_size strides_size = do
  shape_bytes ← checked_multiply shape_size element_bytes
  strides_bytes ← checked_multiply strides_size element_bytes
  padded ← checked_add shape_bytes (element_bytes - 1)
  checked_add padded strides_bytes

-- Where the strides start in a block of `bytes` bytes at `base`.
unfoldable pub strides_place : ℕ → ℕ → ℕ → ℕ → Option ℕ
strides_place shape_size strides_size base bytes =
    std_align element_bytes (strides_size * element_bytes) (base + shape_size * element_bytes)
      (bytes - shape_size * element_bytes)

checked_multiply-fits : (n : ℕ) → n < 2 ^ 32 → checked_multiply n element_bytes ≡ some (n * 8)
unfolding checked_multiply
checked_multiply-fits n h = ground arith

checked_add-fits : (a b : ℕ) → a < 2 ^ 63 → b < 2 ^ 63 → checked_add a b ≡ some (a + b)
unfolding checked_add
checked_add-fits a b h k = ground arith

pub combined_bytes-fits :
    (n m : ℕ) → n < 2 ^ 32 → m < 2 ^ 32 → combined_bytes n m ≡ some (n * 8 + 7 + m * 8)
unfolding combined_bytes
combined_bytes-fits n m a b =
    rw (checked_multiply-fits n a, checked_multiply-fits m b)
      (rw (checked_add-fits (n * 8) 7 (omega arith) (omega arith))
        (checked_add-fits (n * 8 + 7) (m * 8) (omega arith) (omega arith)))

pub strides_place-fits :
    (n m base : ℕ)
    → let p = base + n * 8 in
      strides_place n m base (n * 8 + 7 + m * 8) ≡ some (p + (8 - p % 8) % 8)
unfolding strides_place std_align
strides_place-fits n m base = ground arith

-- For ranks below 2 ^ 32, the combined allocation computes its size and its strides without
-- aborting, and the strides start behind the shape, at a multiple of their alignment, and end
-- within the block, whatever its address is.
pub combined_layout :
    (n m base : ℕ)
    → n < 2 ^ 32
    → m < 2 ^ 32
    → (bytes : ℕ) × (place : ℕ) × (combined_bytes n m ≡ some bytes)
      × (strides_place n m base bytes ≡ some place)
      × (base + n * 8 ≤ place)
      × (place % 8 ≡ 0)
      × (place + m * 8 ≤ base + bytes)
combined_layout n m base a b =
    let p = base + n * 8 in
    (
      n * 8 + 7 + m * 8,
      p + (8 - p % 8) % 8,
      combined_bytes-fits n m a b,
      strides_place-fits n m base,
      omega arith,
      omega arith,
      omega arith,
    )
