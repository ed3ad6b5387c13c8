-- ===== src/Dispatcher/Reached.antt =====
-- What the single dispatch of src/dispatcher.h calls.
use Prim.{Unit, tt}
use Prim.Native.String.{String}
use infini_rt.Base.{
  ℕ, ◌≡◌, refl, Bool, true, false, ◌&&◌, ◌==◌, if◌then◌else◌, List, [], ◌∷◌, none, some, arith,
  Bool-cases, inl, inr, ==_iff,
}
use infini_rt.Traits.{contains, filter_list, contains-count, filter_list-count}
use infini_rt.Dispatcher.Outcome.{
  Fault, unsupported_void, unsupported_value, no_values, Outcome, returned, failed, Action, ◌>>=◌,
  ◌>>◌, pure, fail, after, ReturnType, void, object, Result,
}
use infini_rt.Dispatcher.Single.{
  handle_void, handle_object, dereference, dispatch_func_impl, unwrap, dispatch_func,
}

module _ {W : Type 0} where
  handle_void_lem :
      (value : ℕ) (func : ℕ → Action W (Unit {0})) (head : ℕ) (tail : List ℕ) (w : W)
      → handle_void value func head tail w ≡ (
          if contains (head ∷ tail) value
          then (do func value; pure true) w
          else (returned false, w))
  unfolding handle_void
  handle_void_lem value func head [] w = elim (Bool-cases (value == head)) [
    | inl e ↦ rw (e, (==_iff value head).0 e) refl
    | inr e ↦ rw e refl
  ]
  handle_void_lem value func head (item ∷ tail) w = elim (Bool-cases (value == item)) [
    | inl e ↦ elim (Bool-cases (value == head)) [
      | inl e' ↦ rw (e, e', (==_iff value item).0 e) refl
      | inr e' ↦ rw (e, e', (==_iff value item).0 e) refl
    ]
    | inr e ↦ rw (e, handle_void_lem value func head tail w) refl
  ]

  handle_object_lem {ℓ} :
      {R : Type ℓ} (value : ℕ) (func : ℕ → Action W R) (head : ℕ) (tail : List ℕ) (w : W)
      → handle_object value func head tail w ≡ (
          if contains (head ∷ tail) value
          then (do r ← func value; pure (true, some r)) w
          else (returned (false, none), w))
  unfolding handle_object
  handle_object_lem value func head [] w = elim (Bool-cases (value == head)) [
    | inl e ↦ rw (e, (==_iff value head).0 e) refl
    | inr e ↦ rw e refl
  ]
  handle_object_lem value func head (item ∷ tail) w = elim (Bool-cases (value == item)) [
    | inl e ↦ elim (Bool-cases (value == head)) [
      | inl e' ↦ rw (e, e', (==_iff value item).0 e) refl
      | inr e' ↦ rw (e, e', (==_iff value item).0 e) refl
    ]
    | inr e ↦ rw (e, handle_object_lem value func head tail w) refl
  ]

-- What is said before the abort, for the list of the values that the functor takes.
abbrev pub refusal : ReturnType → List ℕ → ℕ → String → Fault
refusal r [] value context = no_values value context
refusal void (head ∷ tail) value context = unsupported_void value context
refusal (object R) (head ∷ tail) value context = unsupported_value value context

module _ {W : Type 0} where
  void-ends :
      (o : Outcome (Unit {0}) × W) (e : Fault)
      → after (after o (λ _. pure true)) (λ handled. if handled then pure tt else fail e) ≡ o
  void-ends (returned tt, w) e = refl
  void-ends (failed e', w) e = refl

  object-ends {ℓ} :
      {R : Type ℓ} (o : Outcome R × W) (e : Fault)
      → after
          (after o (λ r. pure (true, some r)))
          (λ (handled, result). if handled then dereference result else fail e)
        ≡ o
  object-ends (returned r, w) e = refl
  object-ends (failed e', w) e = refl

  dispatch_func_impl_lem :
      (r : ReturnType) (value : ℕ) (func : ℕ → Action W (Result r)) (context : String) (head : ℕ)
      (tail : List ℕ) (w : W)
      → dispatch_func_impl r value func context head tail w ≡ (
          if contains (head ∷ tail) value
          then func value w
          else (failed (refusal r (head ∷ tail) value context), w))
  unfolding dispatch_func_impl
  dispatch_func_impl_lem void value func context head tail w =
      elim (Bool-cases (contains (head ∷ tail) value)) [
        | inl e ↦ rw (handle_void_lem value func head tail w, e) (void-ends (func value w) _)
        | inr e ↦ rw (handle_void_lem value func head tail w, e) refl
      ]
  dispatch_func_impl_lem (object R) value func context head tail w =
      elim (Bool-cases (contains (head ∷ tail) value)) [
        | inl e ↦ rw (handle_object_lem value func head tail w, e) (object-ends (func value w) _)
        | inr e ↦ rw (handle_object_lem value func head tail w, e) refl
      ]

  unwrap_lem :
      (r : ReturnType) (value : ℕ) (func : ℕ → Action W (Result r)) (context : String)
      (kept : List ℕ) (w : W)
      → unwrap r value func context kept w
        ≡ (if contains kept value then func value w else (failed (refusal r kept value context), w))
  unfolding unwrap
  unwrap_lem r value func context [] w = refl
  unwrap_lem r value func context (head ∷ tail) w =
      dispatch_func_impl_lem r value func context head tail w

pub contains-filter_list :
    (f : ℕ → Bool) (xs : List ℕ) (v : ℕ) → contains (filter_list f xs) v ≡ f v && contains xs v
contains-filter_list f xs v =
    ground (arith, contains-count (filter_list f xs) v, filter_list-count f xs v)

module _ {W : Type 0} where
  -- The dispatch of one value calls the functor once, with exactly that value, where the value is
  -- in the list and the functor takes it, and what the call does and gives is what the dispatch
  -- does and gives, for void and other functors. Any other value aborts before any call, with the
  -- message for the list that was left.
  pub dispatch_func_lem :
      (r : ReturnType) (accepts : ℕ → Bool) (all_values : List ℕ) (value : ℕ)
      (func : ℕ → Action W (Result r)) (context : String) (w : W)
      → dispatch_func r accepts all_values value func context w ≡ (
          if accepts value && contains all_values value
          then func value w
          else (failed (refusal r (filter_list accepts all_values) value context), w))
  unfolding dispatch_func filter_list
  dispatch_func_lem r accepts all_values value func context w =
      rw (← contains-filter_list accepts all_values value)
        (unwrap_lem r value func context (filter_list accepts all_values) w)
