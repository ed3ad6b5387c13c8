-- ===== src/Dispatcher/Resolved.antt =====
-- What the dispatch of several values, of src/dispatcher.h, calls.
use Prim.Native.String.{String}
use infini_rt.Base.{
  ℕ, zero, suc, ◌≡◌, ◌⊎◌, refl, Bool, true, false, ◌&&◌, if◌then◌else◌, List, [], ◌∷◌, ◌++◌, none,
  some, arith, inl, inr, Bool-cases, get_elem?, drop, append-nil, append_assoc,
}
use infini_rt.Traits.{contains, filter_list}
use infini_rt.Dispatcher.Outcome.{
  Fault, unsupported_void, unsupported_value, out_of_range, Outcome, returned, failed, Action,
  after, ReturnType, void, object, Result,
}
use infini_rt.Dispatcher.Reached.{refusal, contains-filter_list, dispatch_func_lem}
use infini_rt.Dispatcher.Single.{dispatch_func}
use infini_rt.Dispatcher.Order.{refusal-same}
use infini_rt.Dispatcher.Multi.{Dimension, to_enum, dispatch_at, first_dim, dispatch_values}

abbrev pub allowed_values : Dimension → List ℕ
allowed_values d = d.head ∷ d.tail

abbrev pub unsupported : ReturnType → ℕ → String → Fault
unsupported void value context = unsupported_void value context
unsupported (object R) value context = unsupported_value value context

-- The two lists side by side: the tags that are resolved, or the first dimension's end.
abbrev pub resolved : ReturnType → String → List Dimension → List ℕ → List ℕ → Outcome (List ℕ)
resolved r context [] values items = returned items
resolved r context (d ∷ rest) [] items = failed out_of_range
resolved r context (d ∷ rest) (value ∷ values) items =
    let later = resolved r context rest values (items ++ (to_enum d.width value ∷ [])) in
    if contains (allowed_values d) (to_enum d.width value)
    then later
    else failed (unsupported r (to_enum d.width value) context)

drop_cases :
    (xs : List ℕ) (i : ℕ)
    → ((get_elem? xs i ≡ none) × (drop i xs ≡ []))
      ⊎ ((x : ℕ) × (get_elem? xs i ≡ some x) × (drop i xs ≡ x ∷ drop (suc i) xs))
drop_cases [] zero = inl (refl, refl)
drop_cases [] (suc i) = inl (refl, refl)
drop_cases (x ∷ xs) zero = inr (x, refl, refl)
drop_cases (x ∷ xs) (suc i) = drop_cases xs i

any_tag-refusal :
    (r : ReturnType) (d : Dimension) (value : ℕ) (context : String)
    → refusal r (filter_list (λ tag. true) (allowed_values d)) value context
      ≡ unsupported r value context
any_tag-refusal void d value context =
    refusal-same void _ (allowed_values d) value context
      (contains-filter_list (λ tag. true) (allowed_values d))
any_tag-refusal (object R) d value context =
    refusal-same (object R) _ (allowed_values d) value context
      (contains-filter_list (λ tag. true) (allowed_values d))

module _ {W : Type 0} where
  any_tag-dispatch_func :
      (r : ReturnType) (d : Dimension) (value : ℕ) (func : ℕ → Action W (Result r))
      (context : String) (w : W)
      → dispatch_func r (λ tag. true) (allowed_values d) value func context w ≡ (
          if contains (allowed_values d) value
          then func value w
          else (failed (unsupported r value context), w))
  any_tag-dispatch_func r d value func context w =
      rw
        (
          dispatch_func_lem r (λ tag. true) (allowed_values d) value func context w,
          any_tag-refusal r d value context,
        )
        refl

  -- The dispatch of several values does what a walk along the lists and the values side by side
  -- does: the functor is called on all the resolved values, and where a value is missing or not
  -- in its list the walk's exception or abort is the end, before any call.
  pub dispatch_values_lem :
      (r : ReturnType) (values : List ℕ) (func : List ℕ → Action W (Result r)) (context : String)
      (dimensions : List Dimension) (index : ℕ) (items : List ℕ) (w : W)
      → dispatch_values r values func context dimensions index items w
        ≡ after (resolved r context dimensions (drop index values) items, w) func
  unfolding dispatch_values first_dim dispatch_at
  dispatch_values_lem r values func context [] index items w = refl
  dispatch_values_lem r values func context (d ∷ rest) index items w =
      elim (drop_cases values index) [
        | inl (a, b) ↦ rw (a, b) refl
        | inr (v, a, b) ↦
            rw
              (
                a,
                b,
                any_tag-dispatch_func r d (to_enum d.width v)
                    (λ tag.
                      dispatch_values r values func context rest (suc index) (items ++ (tag ∷ [])))
                    context w,
              )
              (elim (Bool-cases (contains (allowed_values d) (to_enum d.width v))) [
                | inl e ↦ rw e (dispatch_values_lem r values func context rest (suc index) _ w)
                | inr e ↦ rw e refl
              ])
      ]

-- One value for each dimension, in the dimension's list as its enumerators.
abbrev pub all_allowed : List Dimension → List ℕ → Bool
all_allowed [] [] = true
all_allowed [] (value ∷ values) = false
all_allowed (d ∷ rest) [] = false
all_allowed (d ∷ rest) (value ∷ values) =
    contains (allowed_values d) (to_enum d.width value) && all_allowed rest values

abbrev pub to_enums : List Dimension → List ℕ → List ℕ
to_enums [] values = []
to_enums (d ∷ rest) [] = []
to_enums (d ∷ rest) (value ∷ values) = to_enum d.width value ∷ to_enums rest values

resolved-all_allowed :
    (r : ReturnType) (context : String) (dimensions : List Dimension) (values items : List ℕ)
    → all_allowed dimensions values ≡ true
    → resolved r context dimensions values items ≡ returned (items ++ to_enums dimensions values)
resolved-all_allowed r context [] [] items h = rw (append-nil items) refl
resolved-all_allowed r context [] (value ∷ values) items h = absurd (ground (arith, h))
resolved-all_allowed r context (d ∷ rest) [] items h = absurd (ground (arith, h))
resolved-all_allowed r context (d ∷ rest) (value ∷ values) items h =
    elim (Bool-cases (contains (allowed_values d) (to_enum d.width value))) [
      | inl e ↦
          rw
            (
              e,
              resolved-all_allowed r context rest values (items ++ (to_enum d.width value ∷ []))
                  (ground (arith, e)),
              append_assoc items (to_enum d.width value ∷ []) (to_enums rest values),
            )
            refl
      | inr e ↦ absurd (ground (arith, e))
    ]

module _ {W : Type 0} where
  -- Where there is one value for each list and each value is in its list, the dispatch of several
  -- values calls the functor once, with exactly those values in their order, and ends as the call
  -- does.
  pub dispatch_values-all_allowed :
      (r : ReturnType) (values : List ℕ) (func : List ℕ → Action W (Result r)) (context : String)
      (dimensions : List Dimension) (w : W)
      → all_allowed dimensions values ≡ true
      → dispatch_values r values func context dimensions 0 [] w
        ≡ func (to_enums dimensions values) w
  dispatch_values-all_allowed r values func context dimensions w h =
      rw
        (
          dispatch_values_lem r values func context dimensions 0 [] w,
          resolved-all_allowed r context dimensions values [] h,
        )
        refl
