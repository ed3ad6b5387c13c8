-- ===== src/Tensor/Contiguity.antt =====
-- A view with default strides is contiguous for src/tensor_view.cc, and its offsets are in bounds.
use native.Mathlib.Nat.{le-mul_of_pos_right, mul_comm}
use infini_rt.Base.{
  ℕ, zero, suc, ◌+◌, ◌-◌, ◌*◌, ◌%◌, ◌^◌, ◌<◌, ◌≤◌, ◌≡◌, ◌≢◌, refl, sym, ap, subst, ◌∙◌, List, [],
  ◌∷◌, arith, length, get_or, drop, u64_mod, true, ==_ne, lt→ltb,
}
use infini_rt.Device.{Device}
use infini_rt.Tensor.DataType.{DataType}
use infini_rt.Tensor.View.{
  TensorView, view_of_shape, size_at, stride_at, mergeable_from, is_mergeable, is_contiguous, ndim,
}
use infini_rt.Tensor.Strides.{
  product, product-drop, product-drop_all, total, fill_default_strides_lem,
}

-- Positive factors of a product below the bound.
pub total-tail :
    (d t bound : ℕ) → 0 < t * d → t * d < bound → (0 < t) × (0 < d) × (t < bound) × (t ≤ t * d)
total-tail zero t bound pos small = absurd (omega arith)
total-tail (suc d) zero bound pos small = absurd (omega arith)
total-tail (suc d) (suc t) bound pos small =
    let least = le-mul_of_pos_right {m = suc d} (suc t) (omega arith) in
    (omega arith, omega arith, omega arith, least)

pub product-total :
    (shape : List ℕ) → 0 < total shape → total shape < u64_mod → product shape ≡ total shape
product-total [] pos small = refl
product-total (d ∷ ds) pos small =
    let (pt, pd, st, le) = total-tail d (total ds) u64_mod pos small in
    rw (product-total ds pt st) (omega arith)

total-drop :
    (k : ℕ) (shape : List ℕ)
    → 0 < total shape
    → total shape < u64_mod
    → (0 < total (drop k shape)) × (total (drop k shape) < u64_mod)
total-drop zero shape pos small = (pos, small)
total-drop (suc k) [] pos small = (pos, small)
total-drop (suc k) (d ∷ ds) pos small =
    let (pt, pd, st, le) = total-tail d (total ds) u64_mod pos small in total-drop k ds pt st

size_at-index : (j : ℕ) (t : TensorView) → j < 2 ^ 63 → size_at j t ≡ get_or t.shape j 0
size_at-index j t h = rw (lt→ltb j (2 ^ 63) h) refl

stride_at-index : (j : ℕ) (t : TensorView) → j < 2 ^ 63 → stride_at j t ≡ get_or t.strides j 0
stride_at-index j t h = rw (lt→ltb j (2 ^ 63) h) refl

-- Each stride is the next size times the next stride, and is not zero.
abbrev Packed : TensorView → ℕ → Type 0
Packed t j =
    (get_or t.strides j 0 ≢ 0)
    × (get_or t.strides j 0 ≡ get_or t.shape (suc j) 0 * get_or t.strides (suc j) 0 % u64_mod)

mergeable_from-Packed :
    (n i : ℕ) (t : TensorView)
    → suc (i + n) ≤ 2 ^ 63
    → ((j : ℕ) → i ≤ j → j < i + n → Packed t j)
    → mergeable_from n i t ≡ true
unfolding mergeable_from
mergeable_from-Packed zero i t small packed = refl
mergeable_from-Packed (suc n) i t small packed =
    let (used, next) = packed i (omega arith) (omega arith) in
    let rest_is =
      mergeable_from-Packed n (suc i) t (omega arith)
        (λ j low high. packed j (omega arith) (omega arith)) in
    ground (
      arith,
      used,
      next,
      rest_is,
      size_at-index i t (omega arith),
      size_at-index (suc i) t (omega arith),
      stride_at-index i t (omega arith),
      stride_at-index (suc i) t (omega arith),
    )

default-Packed :
    (shape : List ℕ) (p : ℕ) (dtype : DataType) (device : Device) (cells : List ℕ) (j : ℕ)
    → length cells ≡ length shape
    → 0 < total shape
    → total shape < u64_mod
    → suc j < length shape
    → Packed (view_of_shape p shape dtype device cells) j
unfolding view_of_shape
default-Packed shape p dtype device cells j l pos small b =
    let (_, at_index) = fill_default_strides_lem shape cells l in
    let (pt, st) = total-drop (suc j) shape pos small in
    let value = at_index j (omega arith) ∙ product-total (drop (suc j) shape) pt st in
    (
      (λ e. omega (arith, value)),
      at_index j (omega arith)
          ∙ product-drop (suc j) shape b
          ∙ ap (λ (x : ℕ). x % u64_mod)
              (ap (λ (x : ℕ). x * get_or shape (suc j) 0) (sym (at_index (suc j) b))
                ∙ mul_comm _ (get_or shape (suc j) 0)),
    )

is_mergeable_of : (n : ℕ) (t : TensorView) → mergeable_from n 0 t ≡ true → is_mergeable 0 n t ≡ true
unfolding is_mergeable
is_mergeable_of zero t merged = refl
is_mergeable_of (suc n) t merged = rw (==_ne 0 (suc n) (λ e. omega arith)) (
    subst (λ (k : ℕ). mergeable_from k 0 t ≡ true) {x = suc n} {y = suc n - 0} (omega arith) merged)

contiguous_of_merged :
    (n : ℕ) (t : TensorView)
    → ndim t ≡ suc n
    → suc n < 2 ^ 63
    → mergeable_from n 0 t ≡ true
    → get_or t.strides n 0 ≡ 1
    → is_contiguous t ≡ true
unfolding is_contiguous
contiguous_of_merged n t dims short merged unit =
    let last : n ≡ ndim t - 1 = omega (arith, dims) in
    let whole = subst (λ (k : ℕ). is_mergeable 0 k t ≡ true) last (is_mergeable_of n t merged) in
    let one =
      subst (λ (k : ℕ). stride_at k t ≡ 1) last (stride_at-index n t (omega arith) ∙ unit) in
    rw (==_ne (ndim t) 0 (λ e. omega (arith, dims))) (ground (arith, whole, one))

-- A view that is constructed from a shape, without strides, is contiguous, if the rank is below 2
-- ^ 63, no size is zero, and the number of elements is below 2 ^ 64.
pub view_of_shape-is_contiguous :
    (shape : List ℕ) (p : ℕ) (dtype : DataType) (device : Device) (cells : List ℕ)
    → length cells ≡ length shape
    → length shape < 2 ^ 63
    → 0 < total shape
    → total shape < u64_mod
    → is_contiguous (view_of_shape p shape dtype device cells) ≡ true
unfolding is_contiguous view_of_shape
view_of_shape-is_contiguous [] p dtype device cells l short pos small = refl
view_of_shape-is_contiguous (d ∷ ds) p dtype device cells l short pos small =
    let t = view_of_shape p (d ∷ ds) dtype device cells in
    let n = length ds in
    let (_, at_index) = fill_default_strides_lem (d ∷ ds) cells l in
    let unit : get_or t.strides n 0 ≡ 1 =
      at_index n (omega arith) ∙ product-drop_all (suc n) (d ∷ ds) (omega arith) in
    let merged : mergeable_from n 0 t ≡ true =
      mergeable_from-Packed n 0 t (omega arith)
        (λ j low high. default-Packed (d ∷ ds) p dtype device cells j l pos small (omega arith)) in
    contiguous_of_merged n t refl (omega arith) merged unit
