-- ===== src/Traits.antt =====
-- The compile-time lists of src/common/traits.h, and the active devices of src/device.h.
use infini_rt.Base.{
  ℕ, zero, suc, ◌≡◌, refl, Bool, false, not, ◌&&◌, ◌||◌, ◌==◌, if◌then◌else◌, List, [], ◌∷◌, ◌++◌,
  Option, none, some, arith, count, count-append,
}

-- `ListGet`; none is an index that does not compile.
unfoldable pub list_get : ℕ → List ℕ → Option ℕ
list_get index [] = none
list_get zero (head ∷ tail) = some head
list_get (suc index) (head ∷ tail) = list_get index tail

-- `Contains` and `IsTypeInList`: a disjunction over the items.
abbrev pub contains : List ℕ → ℕ → Bool
contains [] value = false
contains (item ∷ items) value = (value == item) || contains items value

-- `Concat`.
abbrev pub concat : List ℕ → List ℕ → List ℕ
concat items more = items ++ more

-- `Flatten` of one list and more.
unfoldable pub flatten : List ℕ → List (List ℕ) → List ℕ
flatten items [] = items
flatten items (more ∷ rest) = flatten (concat items more) rest

-- `Filter`: the values that the functor takes, each once, behind those found before.
unfoldable pub filter : (ℕ → Bool) → List ℕ → List ℕ → List ℕ
filter is_invocable filtered [] = filtered
filter is_invocable filtered (head ∷ tail) =
    let kept = filter is_invocable (filtered ++ (head ∷ [])) tail in
    let dropped = filter is_invocable filtered tail in
    if is_invocable head && not (contains filtered head) then kept else dropped

unfoldable pub filter_list : (ℕ → Bool) → List ℕ → List ℕ
filter_list is_invocable items = filter is_invocable [] items

pub contains-count : (xs : List ℕ) (v : ℕ) → contains xs v ≡ not (count v xs == 0)
contains-count [] v = refl
contains-count (x ∷ xs) v = ground (arith, contains-count xs v)

filter-count :
    (f : ℕ → Bool) (acc xs : List ℕ) (v : ℕ)
    → count v (filter f acc xs) ≡ (
        if not (count v acc == 0)
        then count v acc
        else if f v && not (count v xs == 0)
        then 1
        else 0)
unfolding filter
filter-count f acc [] v = ground arith
filter-count f acc (x ∷ xs) v = ground (
  arith,
  contains-count acc x,
  count-append v acc (x ∷ []),
  filter-count f (acc ++ (x ∷ [])) xs v,
  filter-count f acc xs v,
)

-- FilterList keeps each value of the list that the functor takes once, however often it stands
-- there, and no other value.
pub filter_list-count :
    (f : ℕ → Bool) (xs : List ℕ) (v : ℕ)
    → count v (filter_list f xs) ≡ (if f v && contains xs v then 1 else 0)
unfolding filter_list
filter_list-count f xs v = ground (arith, filter-count f [] xs v, contains-count xs v)
