-- ===== src/Dispatcher/Outcome.antt =====
-- How a call ends, for src/dispatcher.h: a value, or one of the ends that the code writes. A call
-- also changes the world `W` that the functors work on.
use Prim.{Unit}
use Prim.Native.String.{String}
use infini_rt.Base.{ℕ}

-- The three messages before `std::abort`, with the value and the context that they print; the
-- exception of `std::vector::at`; the abort of `ConstexprMap::at`; `*result` where the optional is
-- empty; and `pop_back` or `back` of a string that is empty.
pub data Fault : Type 0 where
  unsupported_void unsupported_value no_values : ℕ → String → Fault
  out_of_range missing_key empty_optional empty_string : Fault

pub data Outcome {ℓ} (A : Type ℓ) : Type ℓ where
  returned : A → Outcome A
  failed : Fault → Outcome A

abbrev pub Action {ℓ κ} : Type ℓ → Type κ → Type (ℓ ⊔ κ)
Action W A = W → Outcome A × W

-- What follows a call: nothing once it has failed.
abbrev pub after {ℓ κ μ} :
    {W : Type ℓ} {A : Type κ} {B : Type μ} → Outcome A × W → (A → Action W B) → Outcome B × W
after (returned a, w) next = next a w
after (failed e, w) next = (failed e, w)

infixl 20 ◌>>=◌
abbrev pub ◌>>=◌ {ℓ κ μ} :
    {W : Type ℓ} {A : Type κ} {B : Type μ} → Action W A → (A → Action W B) → Action W B
(m >>= next) w = after (m w) next

infixl 20 ◌>>◌
abbrev pub ◌>>◌ {ℓ κ} : {W : Type ℓ} {B : Type κ} → Action W (Unit {0}) → Action W B → Action W B
m >> next = m >>= (λ _. next)

abbrev pub pure {ℓ κ} : {W : Type ℓ} {A : Type κ} → A → Action W A
pure a w = (returned a, w)

abbrev pub fail {ℓ κ} : {W : Type ℓ} {A : Type κ} → Fault → Action W A
fail e w = (failed e, w)

-- `ReturnType`, as `std::is_void_v` tells it apart.
pub data ReturnType : Type 1 where
  void : ReturnType
  object : Type 0 → ReturnType

abbrev pub Result : ReturnType → Type 0
Result void = Unit {0}
Result (object R) = R
