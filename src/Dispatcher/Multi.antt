-- ===== src/Dispatcher/Multi.antt =====
-- The dispatch of several values, of src/dispatcher.h, one list of allowed values for each.
use Prim.Native.String.{String}
use infini_rt.Base.{ℕ, suc, ◌%◌, ◌^◌, true, List, [], ◌∷◌, ◌++◌, Option, none, some, get_elem?}
use infini_rt.Dispatcher.Outcome.{out_of_range, Action, fail, ReturnType, Result}
use infini_rt.Dispatcher.Single.{dispatch_func}

-- A dimension's list, which the `static_assert` wants not to be empty, and the width in bits of
-- `EnumType`, the common type of its values. An integer of w bits is read as its bit pattern.
pub record Dimension : Type 0 where
  pub width : ℕ
  pub head : ℕ
  pub tail : List ℕ

-- `static_cast<EnumType>(value)` of an `int64_t`.
abbrev pub to_enum : ℕ → ℕ → ℕ
to_enum width value = value % 2 ^ width

module _ {W : Type 0} (r : ReturnType) (values : List ℕ) (func : List ℕ → Action W (Result r))
    (context : String) where
  -- `values.at(index)`, and the dispatch of the value that it gives; `recurse` is the adapter, which
  -- takes every tag.
  unfoldable pub dispatch_at :
      Dimension → (ℕ → Action W (Result r)) → Option ℕ → Action W (Result r)
  dispatch_at d recurse none = fail out_of_range
  dispatch_at d recurse (some value) =
      dispatch_func r (λ tag. true) (d.head ∷ d.tail) (to_enum d.width value) recurse context

  -- `MultiDispatchFirstDim`.
  unfoldable pub first_dim : Dimension → ℕ → (ℕ → Action W (Result r)) → Action W (Result r)
  first_dim d index recurse = dispatch_at d recurse (get_elem? values index)

  -- The two overloads, with all dimensions resolved and with one to go.
  unfoldable pub dispatch_values : List Dimension → ℕ → List ℕ → Action W (Result r)
  dispatch_values [] index items = func items
  dispatch_values (d ∷ rest) index items =
      first_dim d index (λ tag. dispatch_values rest (suc index) (items ++ (tag ∷ [])))
