-- ===== src/SmallVector/Initialize.antt =====
-- The initializers that the constructors of src/common/small_vector.h call.
use infini_rt.Base.{
  ℕ, zero, suc, Bool, true, false, Option, none, some, List, [], ◌∷◌, leb, if◌then◌else◌, length,
}
use infini_rt.SmallVector.Memory.{Config, Memory, require, construct_at, allocate}
use infini_rt.SmallVector.Storage.{SmallVector, inline_storage, inline_cells, replace_with_heap}
use infini_rt.SmallVector.Modify.{push_back}

-- `std::fill_n` and `std::uninitialized_fill_n`.
abbrev pub fill_n : {A : Type 0} → ℕ → A → List A → List A
fill_n zero x cells = cells
fill_n (suc n) x [] = []
fill_n (suc n) x (y ∷ cells) = x ∷ fill_n n x cells

unfoldable pub fill_into : {A : Type 0} → ℕ → ℕ → A → Memory A → Memory A
fill_into p zero x h = h
fill_into p (suc n) x h = construct_at p n x (fill_into p n x h)

-- `CopyToInline`, with the `static_cast` of each element; for a range of pointers to `T` this is `std::copy`.
abbrev pub copy_to_inline : {A B : Type 0} → (B → A) → List B → List A → List A
copy_to_inline cast [] cells = cells
copy_to_inline cast (x ∷ xs) [] = []
copy_to_inline cast (x ∷ xs) (y ∷ cells) = cast x ∷ copy_to_inline cast xs cells

-- `UninitializedCopy` to the elements of a block from an index on.
unfoldable pub uninitialized_copy : {A B : Type 0} → (B → A) → ℕ → ℕ → List B → Memory A → Memory A
uninitialized_copy cast p index [] h = h
uninitialized_copy cast p index (x ∷ xs) h =
    uninitialized_copy cast p (suc index) xs (construct_at p index (cast x) h)

module _ {A : Type 0} (c : Config A) where
  -- A heap allocation of `count` elements is filled by `write` and taken over.
  unfoldable pub take_over :
      ℕ
      → (ℕ → Memory A → Memory A)
      → SmallVector A
      → Option ℕ × Memory A
      → Bool × SmallVector A × Memory A
  take_over count write v (none, h) = (false, v, h)
  take_over count write v (some p, h) =
      let (v1, h1) = replace_with_heap c p count count v (write p h) in (true, v1, h1)

  module _ (grants : ℕ → Memory A → Bool) where
    unfoldable pub initialize_fill :
        ℕ → A → SmallVector A → Memory A → Bool × SmallVector A × Memory A
    initialize_fill count x v h =
        let cells = inline_cells v.storage in
        if leb count c.inline_capacity
        then (
          true,
          record v { storage = inline_storage (fill_n count x cells); size = count },
          require (leb count (length cells)) h,
        )
        else take_over count (λ p h1. fill_into p count x h1) v (allocate c grants count h)

    unfoldable pub initialize_count : ℕ → SmallVector A → Memory A → Bool × SmallVector A × Memory A
    initialize_count count v h = initialize_fill count c.value_initialized v h

    unfoldable pub initialize_forward_range :
        {B : Type 0} → (B → A) → List B → SmallVector A → Memory A → Bool × SmallVector A × Memory A
    initialize_forward_range cast [] v h = (true, v, h)
    initialize_forward_range cast (x ∷ xs) v h =
        let range = x ∷ xs in
        let cells = inline_cells v.storage in
        if leb (length range) c.inline_capacity
        then (
          true,
          record v {
            storage = inline_storage (copy_to_inline cast range cells);
            size = length range;
          },
          require (leb (length range) (length cells)) h,
        )
        else take_over (length range) (λ p h1. uninitialized_copy cast p 0 range h1) v
            (allocate c grants (length range) h)

    -- An exception ends the loop.
    unfoldable pub initialize_input_range :
        {B : Type 0} → (B → A) → List B → SmallVector A → Memory A → Bool × SmallVector A × Memory A
    initialize_input_range cast [] v h = (true, v, h)
    initialize_input_range cast (x ∷ xs) v h =
        let (done, v1, h1) = push_back c grants (cast x) v h in
        let rest = initialize_input_range cast xs v1 h1 in if done then rest else (false, v1, h1)
