-- ===== src/ConstexprMap.antt =====
-- `ConstexprMap` of src/common/constexpr_map.h: a lookup in an array of pairs.
use infini_rt.Base.{Bool, if◌then◌else◌, List, [], ◌∷◌, Option, none, some}

-- The first pair whose key compares equal; `none` is the abort at the end.
module _ {ℓ κ} {K : Type ℓ} {V : Type κ} (eq : K → K → Bool) where
  unfoldable pub at : List (K × V) → K → Option V
  at [] key = none
  at ((k, v) ∷ rest) key = if eq k key then some v else at rest key
