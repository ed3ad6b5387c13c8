-- ===== src/Pool/Classes.antt =====
-- Laws of the size classes under a change of one free list, and of a change of one block.
use infini_rt.Base.{
  ℕ, zero, suc, ◌<◌, ◌≡◌, ◌≢◌, true, false, refl, ltb, ◌==◌, if◌then◌else◌, List, [], ◌∷◌, arith,
  length, get_or, set, length-set, ◌&&◌, leb, inl, inr, Bool-cases, some, ◌+◌, ◌≤◌,
}
use infini_rt.Pool.Machine.{
  Kind, size_class, SizeClass, empty_class, free_of, block_size_of, set_free,
}
use infini_rt.Pool.Allocate.{choose_class, kind_eq}

get_or-set :
    (xs : List SizeClass) (c d : ℕ) (v e : SizeClass)
    → get_or (set xs c v) d e ≡ (if (c == d) && ltb c (length xs) then v else get_or xs d e)
get_or-set [] c d v e = ground arith
get_or-set (x ∷ xs) zero zero v e = ground arith
get_or-set (x ∷ xs) zero (suc d) v e = ground arith
get_or-set (x ∷ xs) (suc c) zero v e = ground arith
get_or-set (x ∷ xs) (suc c) (suc d) v e = ground (arith, get_or-set xs c d v e)

module _ (xs : List SizeClass) (c d : ℕ) (ids : List ℕ) where
  pub free_of-set_free :
      free_of (set_free xs c ids) d ≡ (if (c == d) && ltb c (length xs) then ids else free_of xs d)
  free_of-set_free = ground (
    arith,
    get_or-set xs c d (record { block_size = block_size_of xs c; free_blocks = ids })
        (empty_class 0),
  )

  pub block_size_of-set_free : block_size_of (set_free xs c ids) d ≡ block_size_of xs d
  block_size_of-set_free = ground (
    arith,
    get_or-set xs c d (record { block_size = block_size_of xs c; free_blocks = ids })
        (empty_class 0),
  )

pub length-set_free :
    (xs : List SizeClass) (c : ℕ) (ids : List ℕ) → length (set_free xs c ids) ≡ length xs
length-set_free xs c ids = length-set xs c _

-- The class that the loop stops at is in range, its blocks are large enough, and those of the
-- classes before it are too small.
pub choose_class-fits :
    (size : ℕ) (xs : List SizeClass) (c d : ℕ)
    → choose_class size xs c ≡ some d
    → (k : ℕ) × (d ≡ c + k)
      × (k < length xs)
      × (size ≤ block_size_of xs k)
      × ((j : ℕ) → j < k → block_size_of xs j < size)
unfolding choose_class
choose_class-fits size [] c d h = cc
choose_class-fits size (x ∷ xs) c d h = elim (Bool-cases (leb size x.block_size)) [
  | inl fits ↦ (0, ground arith, ground arith, ground arith, λ j l. absurd (omega arith))
  | inr big ↦
      let (k, e, l, g, before) = choose_class-fits size xs (suc c) d (ground arith) in
      (
        suc k,
        omega arith,
        omega arith,
        g,
        elim [ zero ↦ λ l. ground arith | suc j ↦ λ l. before j (omega arith) ],
      )
]

pub kind_eq-class : (k : Kind) → kind_eq k size_class ≡ true → k ≡ size_class
kind_eq-class size_class h = refl
kind_eq-class _ h = cc

pub kind_ne-class : (k : Kind) → kind_eq k size_class ≡ false → k ≢ size_class
kind_ne-class size_class h = cc
kind_ne-class _ h = cc
