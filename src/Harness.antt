-- ===== src/Harness.antt =====
-- jupiter-core/src/amms/test_harness.rs: the test harness, in parts.
pub mod Amounts
pub mod Bank
pub mod Simulation
pub mod Verdict
pub mod SimulatedSwap
pub mod Precise
pub mod QuoteSearch
pub mod Snapshot
pub mod Setup
pub mod Directories
pub mod Client
pub mod Loading
pub mod OutAmount
pub mod TestRpc
pub mod TakeSnapshot
