-- ===== src/Tensor/View.antt =====
-- `TensorView` of src/tensor_view.h and src/tensor_view.cc, `HashCombine` of src/hash.h, and `FillDefaultStrides` of
-- src/common/shape_strides_storage.h. A stride and an index are the 64-bit pattern of a `ptrdiff_t`.
use Prim.Native.Nat.{bit_xor}
use infini_rt.Base.{
  ℕ, zero, suc, ◌+◌, ◌-◌, ◌*◌, ◌/◌, ◌%◌, ◌^◌, ◌==◌, ltb, if◌then◌else◌, List, [], ◌∷◌, Bool, true,
  false, not, ◌&&◌, ◌||◌, Option, none, some, length, get_or, set, drop, u64_mod,
}
use infini_rt.Device.{Device, device_eq}
use infini_rt.Sequences.{equal_elements}
use infini_rt.Tensor.DataType.{DataType, float32, size_of_type, data_type_eq}

pub record TensorView : Type 0 where
  pub data_pointer : ℕ
  pub shape : List ℕ
  pub strides : List ℕ
  pub dtype : DataType
  pub device : Device

abbrev pub default_data_type : DataType
default_data_type = float32

-- The loop of `FillDefaultStrides`, from `index` down to 1.
unfoldable pub fill_strides : ℕ → List ℕ → List ℕ → List ℕ
fill_strides zero shape strides = strides
fill_strides (suc index) shape strides =
    fill_strides index shape
      (set strides index (get_or strides (suc index) 0 * get_or shape (suc index) 0 % u64_mod))

unfoldable pub fill_default_strides : List ℕ → ℕ → List ℕ → List ℕ
fill_default_strides shape zero strides = strides
fill_default_strides shape (suc last) strides = fill_strides last shape (set strides last 1)

-- The constructor from a shape; `cells` is what the uninitialized strides hold.
unfoldable pub view_of_shape : ℕ → List ℕ → DataType → Device → List ℕ → TensorView
view_of_shape p shape dtype device cells = record {
  data_pointer = p;
  shape = shape;
  strides = fill_default_strides shape (length shape) cells;
  dtype = dtype;
  device = device;
}

-- The constructor from a shape and strides.
abbrev pub view_of_strides : ℕ → List ℕ → List ℕ → DataType → Device → TensorView
view_of_strides p shape strides dtype device = record {
  data_pointer = p;
  shape = shape;
  strides = strides;
  dtype = dtype;
  device = device;
}

abbrev pub ndim : TensorView → ℕ
ndim t = length t.shape

-- A negative index counts from the end.
abbrev pub effective_index : ℕ → ℕ → ℕ
effective_index index size = if ltb index (2 ^ 63) then index else (index + size) % u64_mod

abbrev pub size_at : ℕ → TensorView → ℕ
size_at index t = get_or t.shape (effective_index index (length t.shape)) 0

abbrev pub stride_at : ℕ → TensorView → ℕ
stride_at index t = get_or t.strides (effective_index index (length t.strides)) 0

-- The loop of `numel`, after `n` axes.
abbrev pub numel_up_to : ℕ → List ℕ → ℕ
numel_up_to zero shape = 1
numel_up_to (suc axis) shape = numel_up_to axis shape * get_or shape axis 0 % u64_mod

unfoldable pub numel : TensorView → ℕ
numel t = numel_up_to (ndim t) t.shape

-- `operator[]`; none is the abort of the table of sizes.
unfoldable pub subview : ℕ → TensorView → Option TensorView
subview index t = elim (size_of_type t.dtype) [
  | none ↦ none
  | some element_size ↦ some (record {
    data_pointer =
        (t.data_pointer
          + effective_index index (get_or t.shape 0 0) * get_or t.strides 0 0 * element_size)
        % u64_mod;
    shape = drop 1 t.shape;
    strides = drop 1 t.strides;
    dtype = t.dtype;
    device = t.device;
  })
]

-- `T()`.
unfoldable pub transpose : TensorView → TensorView
transpose t = record t {
  shape = get_or t.shape 1 0 ∷ get_or t.shape 0 0 ∷ [];
  strides = get_or t.strides 1 0 ∷ get_or t.strides 0 0 ∷ [];
}

-- The lambda of `HasBroadcastDim` under `any_of`, for `n` more elements: its counter `i` moves on only
-- where the size is not one.
unfoldable pub any_broadcast : ℕ → ℕ → List ℕ → List ℕ → Bool
any_broadcast zero i shape strides = false
any_broadcast (suc n) i shape strides =
    if get_or shape i 0 == 1
    then any_broadcast n i shape strides
    else (get_or strides i 0 == 0) || any_broadcast n (suc i) shape strides

unfoldable pub has_broadcast_dim : TensorView → Bool
has_broadcast_dim t = any_broadcast (length t.shape) 0 t.shape t.strides

-- The loop of `IsMergeable`, for `n` more dimensions from `i` on.
unfoldable pub mergeable_from : ℕ → ℕ → TensorView → Bool
mergeable_from zero i t = true
mergeable_from (suc n) i t =
    let rest = mergeable_from n (suc i) t in
    if (size_at i t == 1) && (stride_at i t == 0)
    then false
    else if stride_at i t == size_at (suc i) t * stride_at (suc i) t % u64_mod
    then rest
    else false

unfoldable pub is_mergeable : ℕ → ℕ → TensorView → Bool
is_mergeable dim_start dim_end t =
    if dim_start == dim_end then true else mergeable_from (dim_end - dim_start) dim_start t

unfoldable pub is_contiguous : TensorView → Bool
is_contiguous t =
    if ndim t == 0
    then true
    else if not (is_mergeable 0 (ndim t - 1) t)
    then false
    else stride_at (ndim t - 1) t == 1

-- `std::equal_to<TensorView>`, which does not look at the data.
unfoldable pub equal_to : TensorView → TensorView → Bool
equal_to a b =
    data_type_eq a.dtype b.dtype
    && device_eq a.device b.device
    && equal_elements a.shape b.shape
    && equal_elements a.strides b.strides

-- `HashCombine`; `hash` is `std::hash` of the element. The shifts and the exclusive or are on 64 bits.
abbrev pub hash_combine : {A : Type 0} → (A → ℕ) → ℕ → A → ℕ
hash_combine hash seed v =
    bit_xor seed ((hash v + 2654435769 + seed * 2 ^ 6 % u64_mod + seed / 2 ^ 2) % u64_mod)

abbrev pub hash_each : (ℕ → ℕ) → ℕ → List ℕ → ℕ
hash_each hash seed [] = seed
hash_each hash seed (v ∷ vs) = hash_each hash (hash_combine hash seed v) vs

-- `std::hash<TensorView>`, over the hashes of its parts.
unfoldable pub hash_view : (ℕ → ℕ) → (DataType → ℕ) → (Device → ℕ) → TensorView → ℕ
hash_view hash_number hash_type hash_device t =
    let seed1 = hash_each hash_number 0 t.shape in
    let seed2 = hash_combine hash_type seed1 t.dtype in
    let seed3 = hash_combine hash_device seed2 t.device in hash_each hash_number seed3 t.strides
