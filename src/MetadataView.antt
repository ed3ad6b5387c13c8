-- ===== src/MetadataView.antt =====
-- `MetadataView` of src/common/metadata_view.h: a pointer and a size. The memory is a function from
-- addresses, counted in elements, to numbers; none is the null pointer.
use infini_rt.Base.{
  ℕ, zero, suc, ◌+◌, ◌-◌, ◌<◌, ◌≡◌, ◌↔◌, refl, subst, ap, ap₂, sym, ◌∙◌, Bool, true, false, not,
  ◌==◌, if◌then◌else◌, Option, none, some, List, [], ◌∷◌, length, get_or, drop, arith, Bool-cases,
  inl, inr, Option-cases, ==_iff,
}

pub record MetadataView : Type 0 where
  pub pointer : Option ℕ
  pub size : ℕ

-- The default constructor.
abbrev pub no_view : MetadataView
no_view = record { pointer = none; size = 0 }

abbrev pub is_empty : MetadataView → Bool
is_empty v = v.size == 0

-- A pointer that moves along.
abbrev pub advance : Option ℕ → ℕ → Option ℕ
advance none n = none
advance (some p) n = some (p + n)

-- `end()`; the null pointer of an empty view is not moved.
unfoldable pub end_of : MetadataView → Option ℕ
end_of v = if is_empty v then v.pointer else advance v.pointer v.size

module _ (memory : ℕ → ℕ) where
  -- A read through a pointer; one through the null pointer is undefined, and none here.
  abbrev pub read : Option ℕ → Option ℕ
  read none = none
  read (some p) = some (memory p)

  unfoldable pub at_index : MetadataView → ℕ → Option ℕ
  at_index v index = read (advance v.pointer index)

  unfoldable pub front : MetadataView → Option ℕ
  front v = read v.pointer

  unfoldable pub back : MetadataView → Option ℕ
  unfolding at_index
  back v = at_index v (v.size - 1)

  -- `==` of two elements.
  abbrev same : Option ℕ → Option ℕ → Bool
  same (some a) (some b) = a == b
  same (some a) none = false
  same none b = false

  -- The loop of `==` that still has `n` indices to visit, from `index` on.
  unfoldable pub equal_views_from : ℕ → ℕ → MetadataView → MetadataView → Bool
  unfolding at_index
  equal_views_from zero index left right = true
  equal_views_from (suc n) index left right =
      let rest = equal_views_from n (suc index) left right in
      if not (same (at_index left index) (at_index right index)) then false else rest

  unfoldable pub equal_views : MetadataView → MetadataView → Bool
  unfolding equal_views_from
  equal_views left right =
      if not (left.size == right.size) then false else equal_views_from left.size 0 left right

  -- The list of a view.
  abbrev cells : ℕ → ℕ → List ℕ
  cells p zero = []
  cells p (suc n) = memory p ∷ cells (suc p) n

  abbrev values_of : Option ℕ → ℕ → List ℕ
  values_of none n = []
  values_of (some p) n = cells p n

  abbrev pub values : MetadataView → List ℕ
  values v = values_of v.pointer v.size

  length-cells : (p n : ℕ) → length (cells p n) ≡ n
  length-cells p zero = refl
  length-cells p (suc n) = omega (arith, length-cells (suc p) n)

  get_or-cells : (p n i : ℕ) → i < n → get_or (cells p n) i 0 ≡ memory (p + i)
  get_or-cells p zero i h = absurd (omega arith)
  get_or-cells p (suc n) zero h = ap memory (omega arith)
  get_or-cells p (suc n) (suc i) h =
      get_or-cells (suc p) n i (omega arith) ∙ ap memory (omega arith)

  drop-cells : (p n : ℕ) → cells (p + 1) (n - 1) ≡ drop 1 (cells p n)
  drop-cells p zero = refl
  drop-cells p (suc n) = ap₂ cells (omega arith) (omega arith)

  -- A null pointer has no elements.
  abbrev pub IsView : MetadataView → Type 0
  IsView v = v.pointer ≡ none → v.size ≡ 0

  -- `[]`, `front` and `back` read the elements of the list, and the view of all elements but the
  -- first has the rest of the list.
  pub values_lem :
      (v : MetadataView)
      → IsView v
      → ((i : ℕ) → i < v.size → at_index v i ≡ some (get_or (values v) i 0))
        × (0 < v.size → front v ≡ some (get_or (values v) 0 0))
        × (0 < v.size → back v ≡ some (get_or (values v) (v.size - 1) 0))
        × (length (values v) ≡ v.size)
        × (values (record { pointer = advance v.pointer 1; size = v.size - 1 }) ≡ drop 1 (values v))
  unfolding front back at_index
  values_lem v w = elim (Option-cases v.pointer) [
    | inl missing ↦
        let none_left = w missing in
        rw missing (
          λ i h. absurd (omega arith),
          λ h. absurd (omega arith),
          λ h. absurd (omega arith),
          omega arith,
          refl,
        )
    | inr (p, there) ↦ rw there (
      λ i h. ap some (sym (get_or-cells p v.size i h)),
      λ h. ap some (ap memory (omega arith) ∙ sym (get_or-cells p v.size 0 h)),
      λ h. ap some (sym (get_or-cells p v.size (v.size - 1) (omega arith))),
      length-cells p v.size,
      drop-cells p v.size,
    )
  ]

  cells-head : (p q n m : ℕ) → cells p (suc n) ≡ cells q (suc m) → memory p ≡ memory q
  cells-head p q n m e = ap (λ (xs : List ℕ). get_or xs 0 0) e

  cells-tail : (p q n m : ℕ) → cells p (suc n) ≡ cells q (suc m) → cells (suc p) n ≡ cells (suc q) m
  cells-tail p q n m e = ap (drop 1) e

  equal_views_from-cells :
      (n index p q a b : ℕ)
      → (equal_views_from n index
            (record { pointer = some p; size = a })
            (record { pointer = some q; size = b })
          ≡ true)
        ↔ (cells (p + index) n ≡ cells (q + index) n)
  unfolding equal_views_from at_index
  equal_views_from-cells zero index p q a b = (λ h. refl, λ e. refl)
  equal_views_from-cells (suc n) index p q a b =
      let rest = equal_views_from-cells n (suc index) p q a b in
      elim (Bool-cases (memory (p + index) == memory (q + index))) [
        | inl here ↦ rw here (
          (λ h. ap₂ (◌∷◌) ((==_iff (memory (p + index)) (memory (q + index))).0 here) (
              ap (λ (k : ℕ). cells k n) (omega arith)
              ∙ rest.0 h
              ∙ ap (λ (k : ℕ). cells k n) (omega arith))),
          (λ e. rest.1 (
              ap (λ (k : ℕ). cells k n) (omega arith)
              ∙ cells-tail (p + index) (q + index) n n e
              ∙ ap (λ (k : ℕ). cells k n) (omega arith))),
        )
        | inr there ↦ rw there (
          (λ h. absurd (ground arith)),
          (λ e. absurd (ground (arith, cells-head (p + index) (q + index) n n e))),
        )
      ]

  equal_sized :
      (n : ℕ) (d e : Option ℕ)
      → (d ≡ none → n ≡ 0)
      → (e ≡ none → n ≡ 0)
      → (equal_views_from n 0 (record { pointer = d; size = n }) (record { pointer = e; size = n })
          ≡ true)
        ↔ (values_of d n ≡ values_of e n)
  unfolding equal_views_from
  equal_sized zero d e v w = elim (Option-cases d) [
    | inl gone ↦ elim (Option-cases e) [
      | inl gone' ↦ rw (gone, gone') ((λ h. refl), λ h. refl)
      | inr (q, there) ↦ rw (gone, there) ((λ h. refl), λ h. refl)
    ]
    | inr (p, here) ↦ elim (Option-cases e) [
      | inl gone' ↦ rw (here, gone') ((λ h. refl), λ h. refl)
      | inr (q, there) ↦ rw (here, there) ((λ h. refl), λ h. refl)
    ]
  ]
  equal_sized (suc n) d e v w = elim (Option-cases d) [
    | inl gone ↦ absurd (omega (arith, v gone))
    | inr (p, here) ↦ elim (Option-cases e) [
      | inl gone' ↦ absurd (omega (arith, w gone'))
      | inr (q, there) ↦
          let at_start : (x : ℕ) → x + 0 ≡ x = λ x. omega arith in
          let loop = equal_views_from-cells (suc n) 0 p q (suc n) (suc n) in
          rw (here, there)
            (
              (λ h.
                  ap (λ (k : ℕ). cells k (suc n)) (sym (at_start p))
                  ∙ loop.0 h
                  ∙ ap (λ (k : ℕ). cells k (suc n)) (at_start q)),
              (λ h. loop.1 (
                  ap (λ (k : ℕ). cells k (suc n)) (at_start p)
                  ∙ h
                  ∙ ap (λ (k : ℕ). cells k (suc n)) (sym (at_start q)))),
            )
    ]
  ]

  -- The comparison of two views, by size and then element by element, answers true exactly if the
  -- views have the same list of elements, where a view with the null pointer has size zero. An
  -- empty view with a pointer and one without are equal.
  pub equal_views_iff :
      (left right : MetadataView)
      → IsView left
      → IsView right
      → (equal_views left right ≡ true) ↔ (values left ≡ values right)
  unfolding equal_views
  equal_views_iff left right v w = elim (Bool-cases (left.size == right.size)) [
    | inl even ↦
        let sizes : right.size ≡ left.size = ground arith in
        rw even (
          subst
            (λ (m : ℕ).
              (equal_views_from left.size 0 left (record { pointer = right.pointer; size = m })
                ≡ true)
              ↔ (values left ≡ values_of right.pointer m))
            (sym sizes) (equal_sized left.size left.pointer right.pointer v (λ e. sym sizes ∙ w e)))
    | inr odd ↦ rw odd (
      (λ h. absurd (ground arith)),
      (λ e. absurd (ground (arith, ap length e, (values_lem left v).3, (values_lem right w).3))),
    )
  ]
