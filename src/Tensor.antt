-- ===== src/Tensor.antt =====
-- `TensorView` (src/tensor_view.h, src/tensor_view.cc) and its types (src/data_type.h).
pub mod DataType
pub mod Float16
pub mod Tables
pub mod View
pub mod Strides
pub mod Broadcast
pub mod Contiguity
pub mod Hashing
pub mod Elements
pub mod Printing
pub mod Printed
