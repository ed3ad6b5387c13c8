-- ===== src/Dispatcher/Order.antt =====
-- The lists of src/dispatcher.h are sets: neither order nor repetition of the values matters.
use infini_rt.Base.{ℕ, ◌≡◌, refl, Bool, List, [], ◌∷◌, arith, ==_refl}
use Prim.Native.String.{String}
use infini_rt.Traits.{contains, filter_list}
use infini_rt.Dispatcher.Outcome.{Action, ReturnType, void, object, Result}
use infini_rt.Dispatcher.Single.{dispatch_func}
use infini_rt.Dispatcher.Reached.{refusal, contains-filter_list, dispatch_func_lem}

pub refusal-same :
    (r : ReturnType) (xs ys : List ℕ) (value : ℕ) (context : String)
    → ((v : ℕ) → contains xs v ≡ contains ys v)
    → refusal r xs value context ≡ refusal r ys value context
refusal-same r [] [] value context same = refl
refusal-same void (x ∷ xs) (y ∷ ys) value context same = refl
refusal-same (object R) (x ∷ xs) (y ∷ ys) value context same = refl
refusal-same r [] (y ∷ ys) value context same = ground (arith, same y, ==_refl y)
refusal-same r (x ∷ xs) [] value context same = ground (arith, same x, ==_refl x)

module _ {W : Type 0} where
  -- The dispatch of one value depends on its list only as a set: two lists with the same values in
  -- any order, with or without repetitions, give the same call or the same message.
  pub dispatch_func-same_values :
      (r : ReturnType) (accepts : ℕ → Bool) (xs ys : List ℕ) (value : ℕ)
      (func : ℕ → Action W (Result r)) (context : String) (w : W)
      → ((v : ℕ) → contains xs v ≡ contains ys v)
      → dispatch_func r accepts xs value func context w
        ≡ dispatch_func r accepts ys value func context w
  dispatch_func-same_values r accepts xs ys value func context w same =
      rw
        (
          dispatch_func_lem r accepts xs value func context w,
          dispatch_func_lem r accepts ys value func context w,
          same value,
          refusal-same r (filter_list accepts xs) (filter_list accepts ys) value context (λ v.
              ground (
                arith,
                contains-filter_list accepts xs v,
                contains-filter_list accepts ys v,
                same v,
              )),
        )
        refl
