-- ===== src/SmallVector/Ranges.antt =====
-- The constructor from an input range and `assign` from ranges, in src/common/small_vector.h.
use infini_rt.Base.{ℕ, Bool, true, false, List}
use infini_rt.SmallVector.Memory.{Config, Memory}
use infini_rt.SmallVector.Storage.{SmallVector, empty, destroy}
use infini_rt.SmallVector.Initialize.{initialize_forward_range, initialize_input_range}
use infini_rt.SmallVector.Assign.{move_construct, move_assign}

module _ {A : Type 0} (c : Config A) where
  -- The local `replacement` is destroyed at the end, whether the constructor returns or throws.
  abbrev pub move_replacement : Bool × SmallVector A × Memory A → Bool × SmallVector A × Memory A
  move_replacement (true, replacement, h) =
      let (v, moved, h1) = move_construct c replacement h in (true, v, destroy c moved h1)
  move_replacement (false, replacement, h) = (false, empty c, destroy c replacement h)

  abbrev pub assign_replacement :
      SmallVector A → Bool × SmallVector A × Memory A → Bool × SmallVector A × Memory A
  assign_replacement v (true, replacement, h) =
      let (v1, moved, h1) = move_assign c v replacement h in (true, v1, destroy c moved h1)
  assign_replacement v (false, replacement, h) = (false, v, h)

  module _ (grants : ℕ → Memory A → Bool) where
    unfoldable pub construct_input_range :
        {B : Type 0} → (B → A) → List B → Memory A → Bool × SmallVector A × Memory A
    construct_input_range cast range h =
        move_replacement (initialize_input_range c grants cast range (empty c) h)

    unfoldable pub assign :
        {B : Type 0} → (B → A) → List B → SmallVector A → Memory A → Bool × SmallVector A × Memory A
    assign cast range v h =
        assign_replacement v (initialize_forward_range c grants cast range (empty c) h)

    unfoldable pub assign_input :
        {B : Type 0} → (B → A) → List B → SmallVector A → Memory A → Bool × SmallVector A × Memory A
    unfolding construct_input_range
    assign_input cast range v h = assign_replacement v (construct_input_range cast range h)
