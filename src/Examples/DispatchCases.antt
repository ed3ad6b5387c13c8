-- ===== src/Examples/DispatchCases.antt =====
-- Dispatches of small lists, to a functor that counts its calls.
use infini_rt.Base.{ℕ, suc, ◌≡◌, refl, Bool, true, ◌==◌, if◌then◌else◌, List, [], ◌∷◌}
use infini_rt.Tensor.DataType.{DataType, float16, float32}
use infini_rt.Dispatcher.Outcome.{Action, returned, object}
use infini_rt.Dispatcher.Single.{dispatch_func}
use infini_rt.Dispatcher.Multi.{Dimension, dispatch_values}
use infini_rt.Dispatcher.Typed.{Enumerators, dispatch_data_types, dispatch_keys}
use infini_rt.Dispatcher.Reached.{dispatch_func_lem}
use infini_rt.Dispatcher.Resolved.{dispatch_values_lem}
use infini_rt.Dispatcher.Enums.{dispatch_data_types_lem, dispatch_keys-to_enums}

abbrev counted : {A : Type 0} → A → Action ℕ A
counted a calls = (returned a, suc calls)

abbrev allowed : List ℕ
allowed = 0 ∷ 3 ∷ 3 ∷ 5 ∷ []

dispatch_func_lem_example :
    dispatch_func (object ℕ) (λ tag. true) allowed 3 counted "copy" 0 ≡ (returned 3, 1)
dispatch_func_lem_example = dispatch_func_lem (object ℕ) (λ tag. true) allowed 3 counted "copy" 0

abbrev small : Dimension
small = record { width = 32; head = 0; tail = 1 ∷ [] }

dispatch_values_lem_example :
    dispatch_values (object (List ℕ)) (1 ∷ 0 ∷ []) counted "copy" (small ∷ small ∷ []) 0 [] 7
    ≡ (returned (1 ∷ 0 ∷ []), 8)
dispatch_values_lem_example =
    dispatch_values_lem (object (List ℕ)) (1 ∷ 0 ∷ []) counted "copy" (small ∷ small ∷ []) 0 [] 7

abbrev halves_and_floats : Enumerators DataType
halves_and_floats = record { head = float16; tail = float32 ∷ [] }

dispatch_data_types_lem_example :
    dispatch_data_types
      (object (List ℕ))
      (λ type. type)
      (halves_and_floats ∷ halves_and_floats ∷ [])
      (float32 ∷ float16 ∷ [])
      counted
      "cast"
      0
    ≡ (returned (10 ∷ 8 ∷ []), 1)
dispatch_data_types_lem_example =
    dispatch_data_types_lem (object (List ℕ)) (λ type. type)
      (halves_and_floats ∷ halves_and_floats ∷ []) (float32 ∷ float16 ∷ []) counted "cast" 0 refl

dispatch_keys-to_enums_example :
    dispatch_keys (object (List ℕ)) (small ∷ []) (4294967297 ∷ []) counted "copy" 0
    ≡ dispatch_keys (object (List ℕ)) (small ∷ []) (1 ∷ []) counted "copy" 0
dispatch_keys-to_enums_example =
    dispatch_keys-to_enums (object (List ℕ)) (small ∷ []) (4294967297 ∷ []) (1 ∷ []) counted "copy"
      0 refl

-- A build for the CPU and Ascend.
abbrev enabled_types : ℕ → Bool
enabled_types type = if type == 0 then true else type == 3
