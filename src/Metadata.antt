-- ===== src/Metadata.antt =====
-- `ShapeStridesStorage` of src/common/shape_strides_storage.h, for the `std::size_t` sizes and
-- `std::ptrdiff_t` strides of `TensorView`.
pub mod Layout
pub mod Storage
pub mod Valid
pub mod Contents
pub mod Copies
pub mod Taken
pub mod Defaults
pub mod Viewed
pub mod Ownership
