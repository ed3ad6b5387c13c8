-- ===== src/Pool.antt =====
-- src/reusable_memory_pool.cc, the reusable memory pool.
pub mod Machine
pub mod Allocate
pub mod Classes
pub mod Invariant
pub mod Growth
pub mod Reuse
pub mod Backing
pub mod Growing
pub mod Grants
pub mod Allocation
pub mod Trimming
pub mod TrimClasses
pub mod Trim
pub mod Guarded
pub mod Ownership
pub mod Pinning
pub mod System
pub mod Reach
pub mod Frames
pub mod Sound
pub mod Owners
pub mod Keeping
pub mod Refinement
pub mod Leaks
pub mod Lifetime
pub mod Transaction
pub mod Release
pub mod Pin
pub mod Entry
