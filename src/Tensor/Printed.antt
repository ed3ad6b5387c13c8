-- ===== src/Tensor/Printed.antt =====
-- What `TensorView::ToString` of src/tensor_view.cc prints.
use Prim.{Unit, tt}
use infini_rt.Base.{
  ℕ, zero, suc, ◌+◌, ◌*◌, ◌%◌, ◌<◌, ◌≡◌, refl, sym, ap, subst, ◌∙◌, Bool, true, false, ◌&&◌, ltb,
  List, [], ◌∷◌, ◌++◌, Option, none, some, arith, get_or, length, map, drop, u64_mod, append_assoc,
  if◌then◌else◌,
}
use infini_rt.Traits.{contains, filter_list, filter}
use infini_rt.Dispatcher.Outcome.{
  empty_string, unsupported_value, Outcome, returned, failed, object,
}
use infini_rt.Dispatcher.Reached.{dispatch_func_lem}
use infini_rt.Dispatcher.Typed.{dispatch_data_type}
use infini_rt.Tensor.DataType.{DataType, data_type_int, size_of_type, float_types, all_int_types}
use infini_rt.Tensor.View.{TensorView, subview, effective_index}
use infini_rt.Tensor.Printing.{
  Part, open_bracket, close_bracket, comma, space, scalar, fallible, ◌>>=◌, pop_back, set_back,
  finish, append_rows, scalar_text, helper_text,
}

-- The types whose values are printed.
abbrev pub printable : DataType → Bool
printable dtype = contains (map data_type_int (float_types ++ all_int_types)) (data_type_int dtype)

abbrev pub or_zero : Option ℕ → ℕ
or_zero none = 0
or_zero (some e) = e

abbrev pub element_size : DataType → ℕ
element_size dtype = or_zero (size_of_type dtype)

-- The row at an index, which `operator[]` gives.
abbrev pub row_at : ℕ → TensorView → TensorView
row_at index t = record {
  data_pointer =
      (t.data_pointer
        + effective_index index (get_or t.shape 0 0) * get_or t.strides 0 0 * element_size t.dtype)
      % u64_mod;
  shape = drop 1 t.shape;
  strides = drop 1 t.strides;
  dtype = t.dtype;
  device = t.device;
}

-- Rows from `i` on, `n` after the first, with ", " between them.
abbrev pub joined : (ℕ → List Part) → ℕ → ℕ → List Part
joined row zero i = row i
joined row (suc n) i = row i ++ (comma ∷ space ∷ joined row n (suc i))

abbrev pub pred : ℕ → ℕ
pred zero = zero
pred (suc n) = n

-- The text of a tensor without empty axes: nested brackets, with the values at the elements.
abbrev pub printed : ℕ → TensorView → List Part
printed zero t = scalar (data_type_int t.dtype) t.data_pointer ∷ []
printed (suc rank) t =
    open_bracket ∷ joined (λ i. printed rank (row_at i t)) (pred (get_or t.shape 0 0)) 0
    ++ (close_bracket ∷ [])

abbrev pub no_empty_axis : List ℕ → Bool
no_empty_axis [] = true
no_empty_axis (d ∷ ds) = ltb 0 d && no_empty_axis ds

size_of_type-some : (dtype : DataType) → size_of_type dtype ≡ some (element_size dtype)
unfolding size_of_type
size_of_type-some dtype = ground arith

subview-row_at : (i : ℕ) (t : TensorView) → subview i t ≡ some (row_at i t)
unfolding subview
subview-row_at i t = rw (size_of_type-some t.dtype, subview) refl

first_of_either :
    {A B : Type 0} (b : Bool) (x y : A) (w : B)
    → (if◌then◌else◌ {A = A × B} b (x, w) (y, w)).0 ≡ (if b then x else y)
first_of_either true x y w = refl
first_of_either false x y w = refl

scalar_text_lem :
    (t : TensorView)
    → scalar_text t ≡ (
        if printable t.dtype
        then returned (scalar (data_type_int t.dtype) t.data_pointer ∷ [])
        else failed (unsupported_value (data_type_int t.dtype) "TensorView::ToStringHelper()"))
unfolding scalar_text dispatch_data_type filter_list filter
scalar_text_lem t =
    ap (λ (o : Outcome (List Part) × Unit {0}). o.0)
      (dispatch_func_lem (object (List Part)) (λ tag. true)
        (map data_type_int (float_types ++ all_int_types)) (data_type_int t.dtype)
        (λ type w. (returned (scalar type t.data_pointer ∷ []), w)) "TensorView::ToStringHelper()"
        tt)
    ∙ first_of_either (printable t.dtype) _ _ tt

pop_back-two :
    {A : Type 0} (xs : List A) (a b : A) → pop_back (xs ++ (a ∷ b ∷ [])) ≡ some (xs ++ (a ∷ []))
pop_back-two [] a b = refl
pop_back-two (x ∷ []) a b = refl
pop_back-two (x ∷ (y ∷ ys)) a b = rw (pop_back-two (y ∷ ys) a b) refl

set_back-last :
    {A : Type 0} (xs : List A) (a c : A) → set_back c (xs ++ (a ∷ [])) ≡ some (xs ++ (c ∷ []))
set_back-last [] a c = refl
set_back-last (x ∷ []) a c = refl
set_back-last (x ∷ (y ∷ ys)) a c = rw (set_back-last (y ∷ ys) a c) refl

finish_lem :
    (xs : List Part) → finish (xs ++ (comma ∷ space ∷ [])) ≡ returned (xs ++ (close_bracket ∷ []))
unfolding finish
finish_lem xs = rw (pop_back-two xs comma space, set_back-last xs comma close_bracket) refl

append_rows_lem :
    (row : ℕ → Outcome (List Part)) (f : ℕ → List Part) (n i : ℕ) (text : List Part)
    → ((i : ℕ) → row i ≡ returned (f i))
    → append_rows row (suc n) i text ≡ returned ((text ++ joined f n i) ++ (comma ∷ space ∷ []))
unfolding append_rows
append_rows_lem row f zero i text rows = rw (rows i) (ap returned (sym (append_assoc text (f i) _)))
append_rows_lem row f (suc n) i text rows =
    let separator = comma ∷ space ∷ [] in
    let later = joined f n (suc i) in
    rw (rows i) (
      append_rows_lem row f n (suc i) (text ++ (f i ++ separator)) rows
      ∙ ap (λ (xs : List Part). returned (xs ++ separator))
          (append_assoc text (f i ++ separator) later
            ∙ ap (λ (xs : List Part). text ++ xs) (append_assoc (f i) separator later)))

first_axis :
    (shape : List ℕ)
    → no_empty_axis shape ≡ true
    → 0 < length shape
    → get_or shape 0 0 ≡ suc (pred (get_or shape 0 0))
first_axis [] full b = absurd (omega arith)
first_axis (zero ∷ ds) full b = absurd (ground (arith, full))
first_axis (suc d ∷ ds) full b = refl

later_axes : (shape : List ℕ) → no_empty_axis shape ≡ true → no_empty_axis (drop 1 shape) ≡ true
later_axes [] full = refl
later_axes (d ∷ ds) full = ground (arith, full)

length-rest : (shape : List ℕ) (n : ℕ) → length shape ≡ suc n → length (drop 1 shape) ≡ n
length-rest [] n h = absurd (omega arith)
length-rest (d ∷ ds) n h = omega arith

-- A tensor of a printable type without an empty axis prints as nested brackets, in row-major
-- order, with a comma and a space between the entries of each axis and the value at each
-- element's address.
pub helper_text_lem :
    (rank : ℕ) (t : TensorView)
    → length t.shape ≡ rank
    → no_empty_axis t.shape ≡ true
    → printable t.dtype ≡ true
    → helper_text rank t ≡ returned (printed rank t)
unfolding helper_text
helper_text_lem zero t dims full known = rw (scalar_text_lem t, known) refl
helper_text_lem (suc rank) t dims full known =
    let n = pred (get_or t.shape 0 0) in
    let some_row : get_or t.shape 0 0 ≡ suc n = first_axis t.shape full (omega arith) in
    let rows =
      append_rows_lem (λ i. fallible (subview i t) >>= helper_text rank)
        (λ i. printed rank (row_at i t)) n 0 (open_bracket ∷ [])
        (λ i. rw (subview-row_at i t) (
          helper_text_lem rank (row_at i t) (length-rest t.shape rank dims)
            (later_axes t.shape full) known)) in
    subst
      (λ (k : ℕ).
        (append_rows (λ i. fallible (subview i t) >>= helper_text rank) k 0 (open_bracket ∷ [])
          >>= finish)
        ≡ returned (printed (suc rank) t))
      (sym some_row)
      (rw rows (finish_lem (open_bracket ∷ joined (λ i. printed rank (row_at i t)) n 0)))

-- A tensor whose first axis is empty is not printed: the end of the text calls back on an empty
-- string, whatever the type and the other axes.
pub helper_text-empty_axis :
    (rank : ℕ) (t : TensorView)
    → get_or t.shape 0 0 ≡ 0
    → helper_text (suc rank) t ≡ failed empty_string
unfolding helper_text append_rows finish
helper_text-empty_axis rank t h = rw h refl
