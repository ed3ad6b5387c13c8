-- ===== src/Sequences.antt =====
-- The comparisons of `MetadataView` (src/common/metadata_view.h) and `SmallVector`
-- (src/common/small_vector.h), by the loop over the indices.
use infini_rt.Base.{
  ℕ, zero, suc, ◌≡◌, ◌↔◌, refl, sym, ap, ap₂, ◌∙◌, Bool, true, false, not, ◌==◌, if◌then◌else◌,
  List, [], ◌∷◌, length, get_or, arith, Bool-cases, inl, inr,
}

-- The loop that still has `n` indices to visit, from `index` on.
unfoldable pub equal_from : ℕ → ℕ → List ℕ → List ℕ → Bool
equal_from zero index left right = true
equal_from (suc n) index left right =
    let rest = equal_from n (suc index) left right in
    if not (get_or left index 0 == get_or right index 0) then false else rest

unfoldable pub equal_elements : List ℕ → List ℕ → Bool
equal_elements left right =
    if not (length left == length right) then false else equal_from (length left) 0 left right

unfoldable pub unequal_elements : List ℕ → List ℕ → Bool
unequal_elements left right = not (equal_elements left right)

equal_from-shift :
    (n index x y : ℕ) (xs ys : List ℕ)
    → equal_from n (suc index) (x ∷ xs) (y ∷ ys) ≡ equal_from n index xs ys
unfolding equal_from
equal_from-shift zero index x y xs ys = refl
equal_from-shift (suc n) index x y xs ys =
    ap (λ (b : Bool). if not (get_or xs index 0 == get_or ys index 0) then false else b)
      (equal_from-shift n (suc index) x y xs ys)

equal_from_sound :
    (xs ys : List ℕ) → length xs ≡ length ys → equal_from (length xs) 0 xs ys ≡ true → xs ≡ ys
unfolding equal_from
equal_from_sound [] [] l h = refl
equal_from_sound [] (y ∷ ys) l h = absurd (omega arith)
equal_from_sound (x ∷ xs) [] l h = absurd (omega arith)
equal_from_sound (x ∷ xs) (y ∷ ys) l h = elim (Bool-cases (x == y)) [
  | inr other ↦ absurd (ground arith)
  | inl same ↦
      let rest : equal_from (length xs) 1 (x ∷ xs) (y ∷ ys) ≡ true = ground arith in
      let e : x ≡ y = ground arith in
      ap₂ (λ (a : ℕ) (b : List ℕ). a ∷ b) e
        (equal_from_sound xs ys (omega arith)
          (sym (equal_from-shift (length xs) 0 x y xs ys) ∙ rest))
]

equal_from_refl : (n index : ℕ) (xs : List ℕ) → equal_from n index xs xs ≡ true
unfolding equal_from
equal_from_refl zero index xs = refl
equal_from_refl (suc n) index xs = ground (arith, equal_from_refl n (suc index) xs)

-- The comparison of two sequences by size and index answers true exactly if they are the same
-- list.
pub equal_elements_iff : (xs ys : List ℕ) → (equal_elements xs ys ≡ true) ↔ (xs ≡ ys)
unfolding equal_elements
equal_elements_iff xs ys = (
  (λ h.
      let same : length xs ≡ length ys = ground arith in
      equal_from_sound xs ys same (ground arith)),
  λ e. rw e (ground (arith, equal_from_refl (length ys) 0 ys)),
)

-- The comparison with any other range, whose iterator moves along.
unfoldable pub equal_range_from : ℕ → List ℕ → List ℕ → Bool
equal_range_from index left [] = true
equal_range_from index left (y ∷ right) =
    let rest = equal_range_from (suc index) left right in
    if not (get_or left index 0 == y) then false else rest

unfoldable pub equal_range : List ℕ → List ℕ → Bool
equal_range left right =
    if not (length left == length right) then false else equal_range_from 0 left right

equal_range_from-shift :
    (index x : ℕ) (xs ys : List ℕ)
    → equal_range_from (suc index) (x ∷ xs) ys ≡ equal_range_from index xs ys
unfolding equal_range_from
equal_range_from-shift index x xs [] = refl
equal_range_from-shift index x xs (y ∷ ys) =
    ap (λ (b : Bool). if not (get_or xs index 0 == y) then false else b)
      (equal_range_from-shift (suc index) x xs ys)

equal_range_from-equal_from :
    (xs ys : List ℕ)
    → length xs ≡ length ys
    → equal_range_from 0 xs ys ≡ equal_from (length xs) 0 xs ys
unfolding equal_range_from equal_from
equal_range_from-equal_from [] [] l = refl
equal_range_from-equal_from [] (y ∷ ys) l = absurd (omega arith)
equal_range_from-equal_from (x ∷ xs) [] l = absurd (omega arith)
equal_range_from-equal_from (x ∷ xs) (y ∷ ys) l =
    ap (λ (b : Bool). if not (x == y) then false else b)
      (equal_range_from-shift 0 x xs ys
        ∙ equal_range_from-equal_from xs ys (omega arith)
        ∙ sym (equal_from-shift (length xs) 0 x y xs ys))

-- The comparison with a range, whose iterator moves along, answers as the comparison of two
-- sequences by index does.
pub equal_range-equal_elements : (xs ys : List ℕ) → equal_range xs ys ≡ equal_elements xs ys
unfolding equal_range equal_elements
equal_range-equal_elements xs ys = elim (Bool-cases (length xs == length ys)) [
  | inl same ↦ rw same (equal_range_from-equal_from xs ys (ground arith))
  | inr other ↦ rw other refl
]
