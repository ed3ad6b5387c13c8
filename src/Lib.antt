-- ===== src/Lib.antt =====
-- InfiniRT: a runtime library over the devices of several vendors. Its parts with logic of their
-- own are a memory pool that reuses device blocks and pins them for graph capture, a guard that
-- selects the pool's device for a scope, a vector with inline storage, the storage of a tensor's
-- shape and strides, the tensor view over it, a dispatcher from values of run time to instances of
-- templates, three backends, and the tables and compile-time lists that these use.
--
-- Pool and its children: src/reusable_memory_pool.cc. Machine has the state of the pool and its
-- blocks, Allocate, Release, Pin and Entry the members of `State` and of `ReusableMemoryPool` by
-- their own names (`allocate_impl` for `allocate_impl_`). A shared pointer to a block is a place in
-- `heap`, a pointer or a stream is a number with 0 for null, and a thread is a number. A member is
-- a function from the state to a result or an error, and the new state. The mutex makes members
-- atomic, so the calls of all threads are one sequence: Reach has the steps and the runs. Owners
-- has an abstract allocator, a ledger of owner counts, and Keeping and Refinement relate the pool
-- to it. Exceptions are values of `Error`; exhausted host memory (`std::bad_alloc` from the pool's
-- own containers) is not modelled.
-- Guard: include/infini/rt/device_guard.h. Messages on the error stream are left out.
-- Facade: the functions of the generated `infini::rt::runtime` that pool and guard call. They are
-- written at build time, so the models take them as a record, with the documented laws of device
-- selection and of memory as further records. CpuRuntime models src/native/cpu/runtime_.h and fills
-- them; its children have events and memory information. Examples.Backend has another runtime, for
-- the tests.
-- SmallVector and its children: src/common/small_vector.h. Memory has the blocks of
-- `std::allocator`; a write out of bounds or a deallocation with a wrong capacity sets `fault`, and
-- an allocation that is not granted throws. Storage, Modify, Initialize, Assign and Ranges have the
-- members, and Access the accessors. A range is the list of what its iterators give, with the
-- `static_cast` to `T` as a function. Renewed says which blocks a copy may have. Assignments are
-- between two objects.
-- Metadata and its children: src/common/shape_strides_storage.h, for 8-byte sizes and strides.
-- Layout has the arithmetic of the combined allocation, Storage the initializers, the move and the
-- release, Copies the copy, and Valid when an object is well formed and which block it has. The
-- arrays are read by the test `IsInline` of the sizes, as the code does, and the inactive member of
-- the union gives no cells. A range is the list of its values after their `static_cast`. An
-- initializer that takes vectors also gives their state afterwards, and Taken follows their blocks;
-- the allocation of a local vector may throw.
-- Tensor and its children: src/data_type.h in DataType and Float16, src/tensor_view.h,
-- src/tensor_view.cc and src/hash.h in View. Strides and indices are the 64-bit patterns of
-- `ptrdiff_t`, and a view holds its shape and strides as lists. That the storage holds these lists
-- is in Metadata.Viewed. Elements, Printing and Printed have the elements and the text of a view; a
-- text is a list of parts.
-- Dispatcher and its children: src/dispatcher.h. Outcome has the ends of a call, Single the
-- dispatch of one value, Multi that of several, Typed the interfaces for data types, devices and
-- keys, and Active the dispatch over the active devices. A tag is the number of its value, a
-- functor is a function of the tag that may change a world, and an abort carries what its message
-- names.
-- Ascend and its children: src/native/ascend/runtime_.h. The functions of ACL and of the dynamic
-- loader are a record; a process has the two cached statics and the world of these functions.
-- Backend has memory and streams, and fills Facade; DataTypes models
-- src/native/ascend/data_type_.h.
-- Cambricon: src/native/cambricon/runtime_.h, with CNRT as a record; it fills Facade too.
-- MetadataView: src/common/metadata_view.h, over a memory of numbers.
-- Device, ConstexprMap, Traits and Sequences: src/device.h, src/common/constexpr_map.h,
-- src/common/traits.h, and the comparisons of src/common/metadata_view.h and
-- src/common/small_vector.h.
-- Base: tests, lists and laws that the modules share.
--
-- Unsigned 64-bit counters wrap where they are written with `% 2 ^ 64`. Loops recurse on a list or
-- on the number of steps that are left. Only `Float16`'s shifts have fuel, ten steps for ten bits.
--
-- Not modelled: the CUDA-like backends under src/native, which name functions of vendor libraries,
-- the driver and the compile-time checks of src/runtime.h, input ranges of the metadata storage,
-- the scripts, tests, examples and the build.
pub mod Ascend
pub mod Base
pub mod Cambricon
pub mod ConstexprMap
pub mod CpuRuntime
pub mod Device
pub mod Dispatcher
pub mod Examples
pub mod Facade
pub mod Guard
pub mod Metadata
pub mod MetadataView
pub mod Pool
pub mod Sequences
pub mod SmallVector
pub mod Tensor
pub mod Traits
