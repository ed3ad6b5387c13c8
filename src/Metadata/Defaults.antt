-- ===== src/Metadata/Defaults.antt =====
-- The default strides that src/common/shape_strides_storage.h writes into its arrays, which may be
-- longer than the shape.
use infini_rt.Base.{
  ℕ, zero, suc, ◌*◌, ◌%◌, ◌^◌, ◌≤◌, ◌<◌, ◌≡◌, inl, refl, ap, ap₂, sym, ◌∙◌, Option, List, [], ◌∷◌,
  length, get_or, set, take, length-take, length-set, arith, u64_mod,
}
use infini_rt.Metadata.Storage.{aborts, copy_range, initialize_default_strides, write_default}
use infini_rt.Metadata.Valid.{Made, take-copy_range, length-copy_range}
use infini_rt.Metadata.Contents.{initialize-Made, initialize-aborts}
use infini_rt.Tensor.View.{fill_strides, fill_default_strides}
use infini_rt.Tensor.Elements.{row_major, fill_default_strides-row_major}

take-set : (n i v : ℕ) (xs : List ℕ) → take n (set xs i v) ≡ set (take n xs) i v
take-set zero i v xs = refl
take-set (suc n) i v [] = refl
take-set (suc n) zero v (x ∷ xs) = refl
take-set (suc n) (suc i) v (x ∷ xs) = ap (λ (t : List ℕ). x ∷ t) (take-set n i v xs)

get_or-take : (n i : ℕ) (xs : List ℕ) → i < n → get_or (take n xs) i 0 ≡ get_or xs i 0
get_or-take zero i xs h = absurd (omega arith)
get_or-take (suc n) i [] h = refl
get_or-take (suc n) zero (x ∷ xs) h = refl
get_or-take (suc n) (suc i) (x ∷ xs) h = get_or-take n i xs (omega arith)

take-fill_strides :
    (n index : ℕ) (shape strides : List ℕ)
    → index < n
    → take n (fill_strides index shape strides) ≡ fill_strides index (take n shape) (take n strides)
unfolding fill_strides
take-fill_strides n zero shape strides h = refl
take-fill_strides n (suc index) shape strides h =
    take-fill_strides n index shape _ (omega arith)
    ∙ ap (fill_strides index (take n shape)) (
        take-set n index _ strides
        ∙ ap (set (take n strides) index) (
            ap₂ (λ (a b : ℕ). a * b % u64_mod) (sym (get_or-take n (suc index) strides h))
              (sym (get_or-take n (suc index) shape h))))

-- Only the entries of the shape count.
take-fill_default_strides :
    (n : ℕ) (shape strides : List ℕ)
    → take n (fill_default_strides shape n strides)
      ≡ fill_default_strides (take n shape) n (take n strides)
unfolding fill_default_strides
take-fill_default_strides zero shape strides = refl
take-fill_default_strides (suc last) shape strides =
    take-fill_strides (suc last) last shape (set strides last 1) (omega arith)
    ∙ ap (fill_strides last (take (suc last) shape)) (take-set (suc last) last 1 strides)

written_default :
    (shape c d : List ℕ)
    → length shape ≤ length c
    → length shape ≤ length d
    → take (length shape) (fill_default_strides (copy_range shape c) (length shape) d)
      ≡ row_major shape
written_default shape c d h k =
    take-fill_default_strides (length shape) (copy_range shape c) d
    ∙ ap (λ (xs : List ℕ). fill_default_strides xs (length shape) (take (length shape) d))
        (take-copy_range shape c h)
    ∙ fill_default_strides-row_major shape (take (length shape) d)
        (length-take (length shape) d ∙ omega arith)

length-fill_strides :
    (index : ℕ) (shape strides : List ℕ)
    → length (fill_strides index shape strides) ≡ length strides
unfolding fill_strides
length-fill_strides zero shape strides = refl
length-fill_strides (suc index) shape strides =
    length-fill_strides index shape _ ∙ length-set strides index _

pub length-fill_default_strides :
    (n : ℕ) (shape strides : List ℕ)
    → length (fill_default_strides shape n strides) ≡ length strides
unfolding fill_default_strides
length-fill_default_strides zero shape strides = refl
length-fill_default_strides (suc last) shape strides =
    length-fill_strides last shape _ ∙ length-set strides last 1

module _ (inline_capacity blank : ℕ) (new : ℕ → Option ℕ) where
  pub initialize_default_strides-Made :
      (shape : List ℕ)
      → length shape < 2 ^ 32
      → Made inline_capacity blank new shape
          (row_major shape)
          (initialize_default_strides inline_capacity blank new shape)
  unfolding initialize_default_strides
  initialize_default_strides-Made shape a =
      let n = length shape in
      initialize-Made inline_capacity blank new n n (write_default inline_capacity blank shape)
        shape (row_major shape) a a
        (λ c d h k. (
          take-copy_range shape c h,
          written_default shape c d h k,
          length-copy_range shape c h,
          length-fill_default_strides n (copy_range shape c) d,
        ))

  -- A longer shape aborts.
  initialize_default_strides-aborts :
      (shape : List ℕ)
      → 2 ^ 32 ≤ length shape
      → initialize_default_strides inline_capacity blank new shape ≡ aborts
  unfolding initialize_default_strides
  initialize_default_strides-aborts shape large =
      initialize-aborts inline_capacity blank new (length shape) (length shape)
        (write_default inline_capacity blank shape) (inl large)
