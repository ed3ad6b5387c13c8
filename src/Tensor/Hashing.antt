-- ===== src/Tensor/Hashing.antt =====
-- `std::equal_to<TensorView>` and `std::hash<TensorView>` of src/tensor_view.h agree.
use infini_rt.Base.{ℕ, ◌≡◌, refl, ap₂, true, arith}
use infini_rt.Device.{Device, DeviceType, type_eq, device_eq}
use infini_rt.Sequences.{equal_elements_iff}
use infini_rt.Tensor.DataType.{DataType, data_type_eq}
use infini_rt.Tensor.View.{TensorView, equal_to, hash_view}

type_eq→eq : (a b : DeviceType) → type_eq a b ≡ true → a ≡ b
type_eq→eq a b h = ground arith

data_type_eq→eq : (a b : DataType) → data_type_eq a b ≡ true → a ≡ b
data_type_eq→eq a b h = ground arith

equal_to-parts :
    (a b : TensorView)
    → equal_to a b ≡ true
    → (a.dtype ≡ b.dtype) × (a.device ≡ b.device) × (a.shape ≡ b.shape) × (a.strides ≡ b.strides)
unfolding equal_to device_eq
equal_to-parts a b h = (
  data_type_eq→eq a.dtype b.dtype (ground arith),
  ap₂ (λ (t : DeviceType) (i : ℕ). record { type = t; index = i })
      (type_eq→eq a.device.type b.device.type (ground arith)) (ground arith),
  (equal_elements_iff a.shape b.shape).0 (ground arith),
  (equal_elements_iff a.strides b.strides).0 (ground arith),
)

-- Views that compare equal have the same hash, for any hash functions of their parts, whatever
-- data they point to.
pub equal_to-hash_view :
    (hash_number : ℕ → ℕ) (hash_type : DataType → ℕ) (hash_device : Device → ℕ) (a b : TensorView)
    → equal_to a b ≡ true
    → hash_view hash_number hash_type hash_device a ≡ hash_view hash_number hash_type hash_device b
unfolding hash_view
equal_to-hash_view hash_number hash_type hash_device a b h =
    let (dtype, device, shape, strides) = equal_to-parts a b h in
    rw (dtype, device, shape, strides) refl
