-- ===== src/SmallVector.antt =====
-- `SmallVector` of src/common/small_vector.h.
pub mod Memory
pub mod Storage
pub mod Modify
pub mod Initialize
pub mod Assign
pub mod Assigned
pub mod Replaced
pub mod Initialized
pub mod Ranges
pub mod Fresh
pub mod Ranged
pub mod Reassigned
pub mod Renewed
pub mod Lists
pub mod Valid
pub mod Construct
pub mod Ending
pub mod Access
pub mod Reallocation
pub mod Extension
pub mod Growth
pub mod Copying
pub mod Copies
