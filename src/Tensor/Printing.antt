-- ===== src/Tensor/Printing.antt =====
-- `TensorView::ToString` of src/tensor_view.cc and `Device::ToString` of src/device.h. A text is the
-- list of its parts: the brackets, commas and spaces that the code adds one by one are parts of one
-- character, and what `std::to_string` gives is one part.
use Prim.{Unit, tt}
use Prim.Native.String.{String}
use infini_rt.Base.{ℕ, zero, suc, List, [], ◌∷◌, ◌++◌, Option, none, some, get_or}
use infini_rt.Device.{Device, string_from_type}
use infini_rt.Dispatcher.Outcome.{missing_key, empty_string, Outcome, returned, failed, object}
use infini_rt.Dispatcher.Typed.{dispatch_data_type_alias}
use infini_rt.Tensor.DataType.{desc_of_type, float_types, all_int_types}
use infini_rt.Tensor.View.{TensorView, ndim, subview}

-- `number` is an `int`, and `scalar` the value of a C++ type, named by its data type's number, that
-- stands at an address.
pub data Part : Type 0 where
  open_bracket close_bracket comma space : Part
  literal : String → Part
  number : ℕ → Part
  scalar : ℕ → ℕ → Part

abbrev pub fallible : {A : Type 0} → Option A → Outcome A
fallible none = failed missing_key
fallible (some a) = returned a

infixl 20 ◌>>=◌
abbrev pub ◌>>=◌ : {A B : Type 0} → Outcome A → (A → Outcome B) → Outcome B
returned a >>= next = next a
failed e >>= next = failed e

abbrev pub after_first : {A : Type 0} → A → Option (List A) → Option (List A)
after_first x none = none
after_first x (some xs) = some (x ∷ xs)

-- `pop_back`, and `back() = part`; none is undefined behaviour.
abbrev pub pop_back : {A : Type 0} → List A → Option (List A)
pop_back [] = none
pop_back (x ∷ []) = some []
pop_back (x ∷ (y ∷ ys)) = after_first x (pop_back (y ∷ ys))

abbrev pub set_back : {A : Type 0} → A → List A → Option (List A)
set_back part [] = none
set_back part (x ∷ []) = some (part ∷ [])
set_back part (x ∷ (y ∷ ys)) = after_first x (set_back part (y ∷ ys))

abbrev pub defined : {A : Type 0} → Option A → Outcome A
defined none = failed empty_string
defined (some a) = returned a

-- The end of `ToStringHelper`.
unfoldable pub finish : List Part → Outcome (List Part)
finish text = do popped ← defined (pop_back text); defined (set_back close_bracket popped)

-- The loop over the first axis, for `n` more indices from `i` on.
unfoldable pub append_rows : (ℕ → Outcome (List Part)) → ℕ → ℕ → List Part → Outcome (List Part)
append_rows row zero i text = returned text
append_rows row (suc n) i text = do
  cells ← row i
  append_rows row n (suc i) (text ++ (cells ++ (comma ∷ space ∷ [])))

-- A rank of zero: the value, by the dispatch of its type.
unfoldable pub scalar_text : TensorView → Outcome (List Part)
scalar_text t =
    (dispatch_data_type_alias {W = Unit {0}} (object (List Part)) (λ type. type)
      (float_types ++ all_int_types) t.dtype
      (λ type w. (returned (scalar type t.data_pointer ∷ []), w)) "TensorView::ToStringHelper()"
      tt).0

-- `ToStringHelper`, by the rank, which each subview lowers.
unfoldable pub helper_text : ℕ → TensorView → Outcome (List Part)
helper_text zero t = scalar_text t
helper_text (suc rank) t = do
  text ←
      append_rows (λ i. fallible (subview i t) >>= helper_text rank) (get_or t.shape 0 0) 0
        (open_bracket ∷ [])
  finish text

abbrev pub device_text : Device → Outcome (List Part)
device_text d = do
  name ← fallible (string_from_type d.type)
  returned (literal name ∷ literal ":" ∷ number d.index ∷ [])

unfoldable pub to_string : TensorView → Outcome (List Part)
to_string t = do
  cells ← helper_text (ndim t) t
  desc ← fallible (desc_of_type t.dtype)
  device ← device_text t.device
  returned (
      literal "tensor(" ∷ cells
      ++ (literal ", dtype=" ∷ literal desc ∷ literal ", device='" ∷ [])
      ++ device
      ++ (literal "')" ∷ []))
