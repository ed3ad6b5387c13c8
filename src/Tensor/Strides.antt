-- ===== src/Tensor/Strides.antt =====
-- The default strides of src/common/shape_strides_storage.h are the products of the later sizes.
use infini_rt.Base.{
  ℕ, zero, suc, ◌*◌, ◌%◌, ◌<◌, ◌≤◌, ◌≡◌, ◌≢◌, refl, sym, ap, subst, ◌∙◌, List, [], ◌∷◌, arith,
  length, get_or, set, drop, u64_mod, length-set, Bool-cases, inl, inr, ◌==◌,
}
use infini_rt.Tensor.View.{fill_strides, fill_default_strides}

-- The product of sizes in 64 bits, and without a bound.
abbrev pub product : List ℕ → ℕ
product [] = 1
product (d ∷ ds) = product ds * d % u64_mod

abbrev pub total : List ℕ → ℕ
total [] = 1
total (d ∷ ds) = total ds * d

pub product-drop :
    (k : ℕ) (shape : List ℕ)
    → k < length shape
    → product (drop k shape) ≡ product (drop (suc k) shape) * get_or shape k 0 % u64_mod
product-drop k [] h = absurd (omega arith)
product-drop zero (d ∷ ds) h = refl
product-drop (suc k) (d ∷ ds) h = product-drop k ds (omega arith)

pub product-drop_all : (k : ℕ) (shape : List ℕ) → length shape ≤ k → product (drop k shape) ≡ 1
product-drop_all zero [] h = refl
product-drop_all (suc k) [] h = refl
product-drop_all zero (d ∷ ds) h = absurd (omega arith)
product-drop_all (suc k) (d ∷ ds) h = product-drop_all k ds (omega arith)

get_or-set_self : (xs : List ℕ) (i v : ℕ) → i < length xs → get_or (set xs i v) i 0 ≡ v
get_or-set_self [] i v h = absurd (omega arith)
get_or-set_self (x ∷ xs) zero v h = refl
get_or-set_self (x ∷ xs) (suc i) v h = get_or-set_self xs i v (omega arith)

get_or-set_ne : (xs : List ℕ) (i j v : ℕ) → i ≢ j → get_or (set xs i v) j 0 ≡ get_or xs j 0
get_or-set_ne [] i j v ne = refl
get_or-set_ne (x ∷ xs) zero zero v ne = absurd (ne refl)
get_or-set_ne (x ∷ xs) zero (suc j) v ne = refl
get_or-set_ne (x ∷ xs) (suc i) zero v ne = refl
get_or-set_ne (x ∷ xs) (suc i) (suc j) v ne = get_or-set_ne xs i j v (λ e. ne (ap suc e))

-- The entries from `index` on are right.
abbrev Filled : ℕ → List ℕ → List ℕ → Type 0
Filled index shape strides =
    (j : ℕ) → index ≤ j → j < length shape → get_or strides j 0 ≡ product (drop (suc j) shape)

fill_strides-Filled :
    (index : ℕ) (shape strides : List ℕ)
    → length strides ≡ length shape
    → index < length shape
    → Filled index shape strides
    → Filled 0 shape (fill_strides index shape strides)
      × (length (fill_strides index shape strides) ≡ length shape)
unfolding fill_strides
fill_strides-Filled zero shape strides l b filled = (filled, l)
fill_strides-Filled (suc index) shape strides l b filled =
    let v = get_or strides (suc index) 0 * get_or shape (suc index) 0 % u64_mod in
    let v_is : v ≡ product (drop (suc index) shape) =
      ap (λ (x : ℕ). x * get_or shape (suc index) 0 % u64_mod) (filled (suc index) (omega arith) b)
      ∙ sym (product-drop (suc index) shape b) in
    fill_strides-Filled index shape (set strides index v) (length-set strides index v ∙ l)
      (omega arith)
      (λ j low high. elim (Bool-cases (index == j)) [
        | inl same ↦
            let e : index ≡ j = ground arith in
            subst (λ (k : ℕ). get_or (set strides index v) k 0 ≡ product (drop (suc k) shape)) e
              (get_or-set_self strides index v (omega arith) ∙ v_is)
        | inr other ↦
            get_or-set_ne strides index j v (λ e. ground arith) ∙ filled j (ground arith) high
      ])

-- In an array as long as the shape, FillDefaultStrides writes at each index the product of the
-- sizes behind it, in 64 bits, and keeps the length.
pub fill_default_strides_lem :
    (shape cells : List ℕ)
    → length cells ≡ length shape
    → let strides = fill_default_strides shape (length shape) cells in
      (length strides ≡ length shape)
      × ((j : ℕ) → j < length shape → get_or strides j 0 ≡ product (drop (suc j) shape))
unfolding fill_default_strides
fill_default_strides_lem [] cells l = (l, λ j b. absurd (omega arith))
fill_default_strides_lem (d ∷ ds) cells l =
    let last = length ds in
    let (filled, same) =
      fill_strides-Filled last (d ∷ ds) (set cells last 1) (length-set cells last 1 ∙ l)
        (omega arith)
        (λ j low high.
          let e : last ≡ j = omega arith in
          subst (λ (k : ℕ). get_or (set cells last 1) k 0 ≡ product (drop (suc k) (d ∷ ds))) e
            (get_or-set_self cells last 1 (omega arith)
              ∙ sym (product-drop_all (suc last) (d ∷ ds) (omega arith)))) in
    (same, λ j b. filled j (omega arith) b)
