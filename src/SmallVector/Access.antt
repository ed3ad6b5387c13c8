-- ===== src/SmallVector/Access.antt =====
-- The accessors of src/common/small_vector.h: `operator[]`, `front` and `back`.
use infini_rt.Base.{
  ℕ, zero, suc, ◌-◌, ◌<◌, ◌≡◌, refl, ap, sym, ◌∙◌, List, [], ◌∷◌, ltb, lt→ltb, length, get_or, take,
  arith,
}
use infini_rt.SmallVector.Memory.{Config, Memory, require}
use infini_rt.SmallVector.Storage.{SmallVector, data_of}
use infini_rt.SmallVector.Valid.{Holds, cells_of}
use infini_rt.SmallVector.Ending.{data_of-cells_of, length-cells_of}

get_or-take :
    {A : Type 0} → (n i : ℕ) (xs : List A) (d : A) → i < n → get_or (take n xs) i d ≡ get_or xs i d
get_or-take zero i xs d h = absurd (omega arith)
get_or-take (suc n) i [] d h = refl
get_or-take (suc n) zero (x ∷ xs) d h = refl
get_or-take (suc n) (suc i) (x ∷ xs) d h = get_or-take n i xs d (omega arith)

module _ {A : Type 0} (c : Config A) where
  -- `operator[]`: the element, and the memory, where a read out of bounds is a fault.
  unfoldable pub element_at : SmallVector A → ℕ → Memory A → A × Memory A
  element_at v index h =
      let cells = data_of c v h in
      (get_or cells index c.blank, require (ltb index (length cells)) h)

  unfoldable pub front : SmallVector A → Memory A → A × Memory A
  unfolding element_at
  front v h = element_at v 0 h

  unfoldable pub back : SmallVector A → Memory A → A × Memory A
  unfolding element_at
  back v h = element_at v (v.size - 1) h

  pub element_at_lem :
      (v : SmallVector A) (h : Memory A) (xs : List A) (index : ℕ)
      → Holds c v h xs
      → index < v.size
      → ((element_at v index h).0 ≡ get_or xs index c.blank)
        × ((element_at v index h).1.fault ≡ h.fault)
  unfolding element_at
  element_at_lem v h xs index r below =
      let e = data_of-cells_of c v.storage v.size v.capacity h r.shaped in
      let l = length-cells_of c v.storage v.capacity h r.shaped in
      (
        ap (λ (cells : List A). get_or cells index c.blank) e
            ∙ sym (get_or-take v.size index (cells_of v.storage h) c.blank below)
            ∙ ap (λ (ys : List A). get_or ys index c.blank) r.contents,
        rw e (
            rw (lt→ltb index (length (cells_of v.storage h)) (omega (arith, l, r.fits)))
              (ground arith)),
      )

  -- The first and the last element of a list that is not empty.
  pub front-back :
      (v : SmallVector A) (h : Memory A) (xs : List A)
      → Holds c v h xs
      → 0 < v.size
      → ((front v h).0 ≡ get_or xs 0 c.blank)
        × ((front v h).1.fault ≡ h.fault)
        × ((back v h).0 ≡ get_or xs (v.size - 1) c.blank)
        × ((back v h).1.fault ≡ h.fault)
  unfolding front back
  front-back v h xs r some_left =
      let (a, b) = element_at_lem v h xs 0 r some_left in
      let (d, e) = element_at_lem v h xs (v.size - 1) r (omega arith) in (a, b, d, e)
