-- ===== src/SmallVector/Lists.antt =====
-- Lists of cells: a write at the end of a prefix, and prefixes one longer.
use infini_rt.Base.{
  ℕ, zero, suc, ◌≡◌, ◌<◌, refl, ap, List, [], ◌∷◌, ◌++◌, arith, length, get_or, set, take,
}

module _ {A : Type 0} where
  pub take-set_end :
      (n : ℕ) (xs : List A) (x : A)
      → n < length xs
      → take (suc n) (set xs n x) ≡ take n xs ++ (x ∷ [])
  take-set_end n [] x h = absurd (omega arith)
  take-set_end zero (y ∷ ys) x h = refl
  take-set_end (suc n) (y ∷ ys) x h = ap (◌∷◌ y) (take-set_end n ys x (omega arith))

  pub take-suc :
      (n : ℕ) (xs : List A) (d : A)
      → n < length xs
      → take (suc n) xs ≡ take n xs ++ (get_or xs n d ∷ [])
  take-suc n [] d h = absurd (omega arith)
  take-suc zero (y ∷ ys) d h = refl
  take-suc (suc n) (y ∷ ys) d h = ap (◌∷◌ y) (take-suc n ys d (omega arith))
