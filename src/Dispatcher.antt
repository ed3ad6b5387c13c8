-- ===== src/Dispatcher.antt =====
-- `DispatchFunc` of src/dispatcher.h: from a value of run time to the functor's instance for it.
pub mod Outcome
pub mod Single
pub mod Reached
pub mod Order
pub mod Multi
pub mod Resolved
pub mod Typed
pub mod Enums
pub mod Active
