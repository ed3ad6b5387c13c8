-- ===== src/Tensor/Elements.antt =====
-- `numel` of src/tensor_view.h, and the addresses that `operator[]` of src/tensor_view.cc reaches.
use native.Mathlib.Nat.{div-add-mod, mod-add-mod, add-mul-mod_self_left}
use infini_rt.Base.{
  ℕ, zero, suc, ◌+◌, ◌*◌, ◌%◌, ◌^◌, ◌<◌, ◌≤◌, ◌≡◌, refl, sym, ap, subst, ◌∙◌, List, [], ◌∷◌, ◌++◌,
  arith, length, get_or, drop, take, u64_mod, true, false, lt→ltb, Option, some, ◌>>=◌, Bool, ltb,
  ◌&&◌, ap₂, ◌/◌,
}
use infini_rt.Device.{Device}
use infini_rt.Tensor.DataType.{DataType, size_of_type}
use infini_rt.Tensor.View.{
  TensorView, view_of_shape, numel, numel_up_to, subview, fill_default_strides,
}
use infini_rt.Tensor.Strides.{product, total, fill_default_strides_lem}
use infini_rt.Tensor.Contiguity.{total-tail, product-total}
use infini_rt.SmallVector.Lists.{take-suc}

mod-mul : (a b m : ℕ) → a % m * b % m ≡ a * b % m
mod-mul a b m =
    let whole : a * b ≡ a % m * b + m * (a / m * b) =
      ap (λ (t : ℕ). t * b) (sym (div-add-mod a m)) ∙ omega arith in
    sym (add-mul-mod_self_left (a % m * b) m (a / m * b)) ∙ ap (λ (t : ℕ). t % m) (sym whole)

total-end : (xs : List ℕ) (d : ℕ) → total (xs ++ (d ∷ [])) ≡ total xs * d
total-end [] d = omega arith
total-end (x ∷ xs) d = rw (total-end xs d) (omega arith)

numel_up_to-total :
    (n : ℕ) (shape : List ℕ)
    → n ≤ length shape
    → numel_up_to n shape ≡ total (take n shape) % u64_mod
numel_up_to-total zero shape h = refl
numel_up_to-total (suc n) shape h =
    ap (λ (t : ℕ). t * get_or shape n 0 % u64_mod) (numel_up_to-total n shape (omega arith))
    ∙ mod-mul (total (take n shape)) (get_or shape n 0) u64_mod
    ∙ ap (λ (t : ℕ). t % u64_mod) (sym (total-end (take n shape) (get_or shape n 0)))
    ∙ ap (λ (xs : List ℕ). total xs % u64_mod) (sym (take-suc n shape 0 (omega arith)))

take_all : (xs : List ℕ) → take (length xs) xs ≡ xs
take_all [] = refl
take_all (x ∷ xs) = ap (λ (t : List ℕ). x ∷ t) (take_all xs)

numel_lem : (t : TensorView) → numel t ≡ total t.shape % u64_mod
unfolding numel
numel_lem t =
    numel_up_to-total (length t.shape) t.shape (omega arith)
    ∙ ap (λ (xs : List ℕ). total xs % u64_mod) (take_all t.shape)

-- The default strides as a list.
abbrev pub row_major : List ℕ → List ℕ
row_major [] = []
row_major (d ∷ ds) = product ds ∷ row_major ds

same_entries :
    (xs ys : List ℕ)
    → length xs ≡ length ys
    → ((j : ℕ) → j < length ys → get_or xs j 0 ≡ get_or ys j 0)
    → xs ≡ ys
same_entries [] [] l h = refl
same_entries [] (y ∷ ys) l h = absurd (omega arith)
same_entries (x ∷ xs) [] l h = absurd (omega arith)
same_entries (x ∷ xs) (y ∷ ys) l h =
    ap₂ (λ (a : ℕ) (b : List ℕ). a ∷ b) (h 0 (omega arith))
      (same_entries xs ys (omega arith) (λ j b. h (suc j) (omega arith)))

pub length-row_major : (shape : List ℕ) → length (row_major shape) ≡ length shape
length-row_major [] = refl
length-row_major (d ∷ ds) = omega (arith, length-row_major ds)

get_or-row_major :
    (shape : List ℕ) (j : ℕ)
    → j < length shape
    → get_or (row_major shape) j 0 ≡ product (drop (suc j) shape)
get_or-row_major [] j h = absurd (omega arith)
get_or-row_major (d ∷ ds) zero h = refl
get_or-row_major (d ∷ ds) (suc j) h = get_or-row_major ds j (omega arith)

pub fill_default_strides-row_major :
    (shape cells : List ℕ)
    → length cells ≡ length shape
    → fill_default_strides shape (length shape) cells ≡ row_major shape
fill_default_strides-row_major shape cells l =
    let (same, entries) = fill_default_strides_lem shape cells l in
    same_entries _ (row_major shape) (same ∙ sym (length-row_major shape)) (λ j b.
      let b' : j < length shape = omega (arith, length-row_major shape) in
      entries j b' ∙ sym (get_or-row_major shape j b'))

-- `t[i][j]...`, and the place of the indices in row-major order.
unfoldable pub element : List ℕ → TensorView → Option TensorView
element [] t = some t
element (i ∷ is) t = subview i t >>= element is

abbrev pub flat : List ℕ → List ℕ → ℕ
flat [] is = 0
flat (d ∷ ds) [] = 0
flat (d ∷ ds) (i ∷ is) = i * total ds + flat ds is

-- One index for each axis, below the axis' size.
abbrev pub within : List ℕ → List ℕ → Bool
within [] [] = true
within [] (i ∷ is) = false
within (d ∷ ds) [] = false
within (d ∷ ds) (i ∷ is) = ltb i d && within ds is

place-lt : (i d r t : ℕ) → i < d → r < t → i * t + r < t * d
place-lt i d r t h k = grind arith

flat-lt : (shape is : List ℕ) → within shape is ≡ true → flat shape is < total shape
flat-lt [] [] w = omega arith
flat-lt [] (i ∷ is) w = absurd (ground (arith, w))
flat-lt (d ∷ ds) [] w = absurd (ground (arith, w))
flat-lt (d ∷ ds) (i ∷ is) w =
    place-lt i d (flat ds is) (total ds) (ground (arith, w)) (flat-lt ds is (ground (arith, w)))

-- A view with the default strides of its shape.
abbrev row_major_view : ℕ → List ℕ → DataType → Device → TensorView
row_major_view p shape dtype device = record {
  data_pointer = p;
  shape = shape;
  strides = row_major shape;
  dtype = dtype;
  device = device;
}

subview_lem :
    (i d p e : ℕ) (ds : List ℕ) (dtype : DataType) (device : Device)
    → size_of_type dtype ≡ some e
    → i < 2 ^ 63
    → subview i (row_major_view p (d ∷ ds) dtype device)
      ≡ some (row_major_view ((p + i * product ds * e) % u64_mod) ds dtype device)
unfolding subview
subview_lem i d p e ds dtype device h b = rw (h, subview) (rw (lt→ltb i (2 ^ 63) b) refl)

-- Two steps from a pointer, each with its wrap-around, are one.
two_steps :
    (p i t r e : ℕ)
    → ((p + i * t * e) % u64_mod + r * e) % u64_mod ≡ (p + (i * t + r) * e) % u64_mod
two_steps p i t r e =
    mod-add-mod (p + i * t * e) u64_mod (r * e) ∙ ap (λ (x : ℕ). x % u64_mod) (omega arith)

row_major-element :
    (shape is : List ℕ) (p e : ℕ) (dtype : DataType) (device : Device)
    → size_of_type dtype ≡ some e
    → p < u64_mod
    → total shape < 2 ^ 63
    → within shape is ≡ true
    → element is (row_major_view p shape dtype device)
      ≡ some (row_major_view ((p + flat shape is * e) % u64_mod) [] dtype device)
unfolding element
row_major-element [] [] p e dtype device h small short w =
    ap (λ (x : ℕ). some (row_major_view x [] dtype device)) (omega arith)
row_major-element [] (i ∷ is) p e dtype device h small short w = absurd (ground (arith, w))
row_major-element (d ∷ ds) [] p e dtype device h small short w = absurd (ground (arith, w))
row_major-element (d ∷ ds) (i ∷ is) p e dtype device h small short w =
    let inside : within ds is ≡ true = ground (arith, w) in
    let below : i < d = ground (arith, w) in
    let used = flat-lt ds is inside in
    let (pt, pd, st, le) = total-tail d (total ds) (2 ^ 63) (grind arith) short in
    let small_index : i < 2 ^ 63 = grind arith in
    let size = product-total ds pt (omega arith) in
    rw (subview_lem i d p e ds dtype device h small_index) (
      row_major-element ds is ((p + i * product ds * e) % u64_mod) e dtype device h (omega arith) st
        inside
      ∙ ap (λ (x : ℕ). some (row_major_view x [] dtype device))
          (ap (λ (x : ℕ). ((p + i * x * e) % u64_mod + flat ds is * e) % u64_mod) size
            ∙ two_steps p i (total ds) (flat ds is) e))

-- In a view that is constructed from a shape of fewer than 2 ^ 63 elements, one index for each
-- axis, each below the axis' size, leads by operator[] to the address of the row-major place of
-- the indices, in bytes behind the data and with the wrap-around of a pointer, and this place is
-- below the number of elements.
pub view_of_shape-element :
    (shape is : List ℕ) (p e : ℕ) (dtype : DataType) (device : Device) (cells : List ℕ)
    → length cells ≡ length shape
    → size_of_type dtype ≡ some e
    → p < u64_mod
    → total shape < 2 ^ 63
    → within shape is ≡ true
    → (u : TensorView) × (element is (view_of_shape p shape dtype device cells) ≡ some u)
      × (u.shape ≡ [])
      × (u.data_pointer ≡ (p + flat shape is * e) % u64_mod)
      × (flat shape is < total shape)
unfolding view_of_shape
view_of_shape-element shape is p e dtype device cells l h small short w = (
  row_major_view ((p + flat shape is * e) % u64_mod) [] dtype device,
  subst
      (λ (strides : List ℕ).
        element is (record {
          data_pointer = p;
          shape = shape;
          strides = strides;
          dtype = dtype;
          device = device;
        })
        ≡ some (row_major_view ((p + flat shape is * e) % u64_mod) [] dtype device))
      (sym (fill_default_strides-row_major shape cells l))
      (row_major-element shape is p e dtype device h small short w),
  refl,
  refl,
  flat-lt shape is w,
)
