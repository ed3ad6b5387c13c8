-- ===== src/Examples.antt =====
-- Concrete inputs: a simulated runtime, tests of the definitions, and an instance of each theorem
-- that has hypotheses.
pub mod Backend
mod PoolCases
mod VectorCases
mod ViewCases
mod DispatchCases
mod AscendCases
mod TensorCases
