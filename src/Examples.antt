-- ===== src/Examples.antt =====
-- Concrete libraries that meet what the theorems assume, a small pool over them, and the theorems
-- at concrete inputs.
pub mod Libraries
pub mod Wires
mod Harnesses
mod Simulations
mod Setups
mod Wallets
mod Snapshots
mod Pools
mod Chains
mod Quotings
mod Spellings
mod Swaps
