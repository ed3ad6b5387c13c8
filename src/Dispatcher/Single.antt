-- ===== src/Dispatcher/Single.antt =====
-- The dispatch of one value, of src/dispatcher.h. An enumerator and a value tag are their number.
-- The further arguments, which every call hands on as they are, are what the functor closes over.
use Prim.{Unit, tt}
use Prim.Native.String.{String}
use infini_rt.Base.{ℕ, Bool, true, false, ◌==◌, if◌then◌else◌, List, [], ◌∷◌, Option, none, some}
use infini_rt.Traits.{filter}
use infini_rt.Dispatcher.Outcome.{
  unsupported_void, unsupported_value, no_values, empty_optional, Action, ◌>>=◌, ◌>>◌, pure, fail,
  ReturnType, void, object, Result,
}

module _ {W : Type 0} where
  -- `handled` of the void path: the values of the tail in order, then the head.
  unfoldable pub handle_void : ℕ → (ℕ → Action W (Unit {0})) → ℕ → List ℕ → Action W Bool
  handle_void value func head [] = if value == head then (do func head; pure true) else pure false
  handle_void value func head (item ∷ tail) =
      let later = handle_void value func head tail in
      if value == item then (do func item; pure true) else later

  -- `handled` of the other path, and the `result` that the match emplaces.
  unfoldable pub handle_object {ℓ} :
      {R : Type ℓ} → ℕ → (ℕ → Action W R) → ℕ → List ℕ → Action W (Bool × Option R)
  handle_object value func head [] =
      if value == head then (do r ← func head; pure (true, some r)) else pure (false, none)
  handle_object value func head (item ∷ tail) =
      let later = handle_object value func head tail in
      if value == item then (do r ← func item; pure (true, some r)) else later

  -- `*result`.
  abbrev pub dereference {ℓ} : {R : Type ℓ} → Option R → Action W R
  dereference none = fail empty_optional
  dereference (some r) = pure r

  unfoldable pub dispatch_func_impl :
      (r : ReturnType) → ℕ → (ℕ → Action W (Result r)) → String → ℕ → List ℕ → Action W (Result r)
  dispatch_func_impl void value func context head tail = do
    handled ← handle_void value func head tail
    if handled then pure tt else fail (unsupported_void value context)
  dispatch_func_impl (object R) value func context head tail = do
    (handled, result) ← handle_object value func head tail
    if handled then dereference result else fail (unsupported_value value context)

  -- `DispatchFuncUnwrap::Call`.
  unfoldable pub unwrap :
      (r : ReturnType) → ℕ → (ℕ → Action W (Result r)) → String → List ℕ → Action W (Result r)
  unwrap r value func context [] = fail (no_values value context)
  unwrap r value func context (head ∷ tail) = dispatch_func_impl r value func context head tail

  -- `accepts` tells the values that the functor is invocable with.
  unfoldable pub dispatch_func :
      (r : ReturnType)
      → (ℕ → Bool)
      → List ℕ
      → ℕ
      → (ℕ → Action W (Result r))
      → String
      → Action W (Result r)
  dispatch_func r accepts all_values value func context =
      unwrap r value func context (filter accepts [] all_values)
