-- ===== src/CpuRuntime/MemInfo.antt =====
-- `Runtime<kCpu>::MemGetInfo` of src/native/cpu/runtime_.h, as it is built on Linux. The lines are
-- the pairs that `std::fscanf` reads from /proc/meminfo, up to the first that does not match.
use Prim.Native.String.{String}
use text.Mathlib.Text.{◌==◌ as str_eq}
use text.Mathlib.TextEquality.{eq_iff}
use infini_rt.Base.{
  ℕ, ◌*◌, ◌%◌, ◌≡◌, refl, sym, ap, ◌∙◌, subst, Bool-cases, inl, inr, true, false, ◌==◌,
  if◌then◌else◌, List, [], ◌∷◌, Option, none, some, arith, u64_mod,
}
use infini_rt.CpuRuntime.{invalid_value}

-- `*free` and `*total`, which are not null.
pub record MemInfo : Type 0 where
  pub free : ℕ
  pub total : ℕ

abbrev pub no_info : MemInfo
no_info = record { free = 0; total = 0 }

abbrev pub scan_line : String → ℕ → MemInfo → MemInfo
scan_line label value m =
    if str_eq label "MemTotal:"
    then record m { total = value * 1024 % u64_mod }
    else if str_eq label "MemAvailable:"
    then record m { free = value * 1024 % u64_mod }
    else m

unfoldable pub scan : List (String × ℕ) → MemInfo → MemInfo
scan [] m = m
scan ((label, value) ∷ lines) m = scan lines (scan_line label value m)

abbrev pub scanned : MemInfo → ℕ × MemInfo
scanned m = (if m.total == 0 then invalid_value else 0, m)

-- `none` is a file that does not open.
unfoldable pub mem_get_info : Option (List (String × ℕ)) → ℕ × MemInfo
mem_get_info none = (invalid_value, no_info)
mem_get_info (some lines) = scanned (scan lines no_info)

-- The bytes of the last line with a label, or `otherwise` where there is none.
abbrev pub last_bytes : String → List (String × ℕ) → ℕ → ℕ
last_bytes name [] otherwise = otherwise
last_bytes name ((label, value) ∷ lines) otherwise =
    last_bytes name lines (if str_eq label name then value * 1024 % u64_mod else otherwise)

total-available :
    (label : String) → str_eq label "MemTotal:" ≡ true → str_eq label "MemAvailable:" ≡ false
total-available label h =
    subst (λ (l : String). str_eq l "MemAvailable:" ≡ false) (sym ((eq_iff label "MemTotal:").0 h))
      refl

scan_line_lem :
    (label : String) (value : ℕ) (m : MemInfo)
    → ((scan_line label value m).total
        ≡ (if str_eq label "MemTotal:" then value * 1024 % u64_mod else m.total))
      × ((scan_line label value m).free
          ≡ (if str_eq label "MemAvailable:" then value * 1024 % u64_mod else m.free))
scan_line_lem label value m = elim (Bool-cases (str_eq label "MemTotal:")) [
  | inl e ↦ rw (e, total-available label e) (refl, refl)
  | inr e ↦ elim (Bool-cases (str_eq label "MemAvailable:")) [
    | inl e' ↦ rw (e, e') (refl, refl)
    | inr e' ↦ rw (e, e') (refl, refl)
  ]
]

scan_lem :
    (lines : List (String × ℕ)) (m : MemInfo)
    → ((scan lines m).total ≡ last_bytes "MemTotal:" lines m.total)
      × ((scan lines m).free ≡ last_bytes "MemAvailable:" lines m.free)
unfolding scan
scan_lem [] m = (refl, refl)
scan_lem ((label, value) ∷ lines) m =
    let later = scan_lem lines (scan_line label value m) in
    let line = scan_line_lem label value m in
    (
      later.0 ∙ ap (last_bytes "MemTotal:" lines) line.0,
      later.1 ∙ ap (last_bytes "MemAvailable:" lines) line.1,
    )

-- The memory information is that of the last lines with the two labels, in bytes and with the
-- wrap-around of `size_t`. It fails where the file does not open or has no total above zero, and a
-- file without a line for the available memory gives success with zero free bytes.
pub mem_get_info_lem :
    (lines : List (String × ℕ))
    → ((mem_get_info (some lines)).1.total ≡ last_bytes "MemTotal:" lines 0)
      × ((mem_get_info (some lines)).1.free ≡ last_bytes "MemAvailable:" lines 0)
      × ((mem_get_info (some lines)).0
          ≡ (if last_bytes "MemTotal:" lines 0 == 0 then invalid_value else 0))
      × (mem_get_info none ≡ (invalid_value, no_info))
unfolding mem_get_info
mem_get_info_lem lines = ground (arith, scan_lem lines no_info)
