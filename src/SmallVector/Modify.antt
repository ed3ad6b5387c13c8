-- ===== src/SmallVector/Modify.antt =====
-- The members of `SmallVector` (src/common/small_vector.h) that change its size or capacity.
use infini_rt.Base.{ℕ, zero, suc, ◌-◌, Bool, true, false, ltb, leb, ◌==◌, if◌then◌else◌, inc64}
use infini_rt.SmallVector.Memory.{Config, Memory}
use infini_rt.SmallVector.Storage.{SmallVector, construct, grown, reallocate}

abbrev pub clear : {A : Type 0} → SmallVector A → SmallVector A
clear v = record v { size = 0 }

-- `++size_`.
abbrev pub grow_size : {A : Type 0} → SmallVector A → SmallVector A
grow_size v = record v { size = inc64 v.size }

module _ {A : Type 0} (c : Config A) where
  -- The loop of `resize`, for the elements that are still to come.
  unfoldable pub construct_values : ℕ → SmallVector A → Memory A → SmallVector A × Memory A
  construct_values zero v h = (v, h)
  construct_values (suc n) v h =
      let (v1, h1) = construct c v v.size c.value_initialized h in
      construct_values n (grow_size v1) h1

  -- `resize`, when the storage is large enough.
  abbrev pub fill_up : ℕ → Bool × SmallVector A × Memory A → Bool × SmallVector A × Memory A
  fill_up count (true, v, h) =
      let (v1, h1) = construct_values (count - v.size) v h in (true, v1, h1)
  fill_up count (false, v, h) = (false, v, h)

  -- The construction at the end, and `++size_`.
  abbrev pub append_value : A → Bool × SmallVector A × Memory A → Bool × SmallVector A × Memory A
  append_value x (true, v, h) = let (v1, h1) = construct c v v.size x h in (true, grow_size v1, h1)
  append_value x (false, v, h) = (false, v, h)

  module _ (grants : ℕ → Memory A → Bool) where
    unfoldable pub reserve : ℕ → SmallVector A → Memory A → Bool × SmallVector A × Memory A
    reserve requested v h =
        if leb requested v.capacity then (true, v, h) else reallocate c grants requested v h

    unfoldable pub resize : ℕ → SmallVector A → Memory A → Bool × SmallVector A × Memory A
    resize count v h =
        if leb count v.size
        then (true, record v { size = count }, h)
        else fill_up count
            (if ltb v.capacity count then reallocate c grants count v h else (true, v, h))

    unfoldable pub grow_for_append : SmallVector A → Memory A → Bool × SmallVector A × Memory A
    grow_for_append v h = reallocate c grants (grown c v.capacity) v h

    unfoldable pub push_back : A → SmallVector A → Memory A → Bool × SmallVector A × Memory A
    push_back x v h =
        append_value x (if v.size == v.capacity then grow_for_append v h else (true, v, h))
