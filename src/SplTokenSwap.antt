-- ===== src/SplTokenSwap.antt =====
-- jupiter-core/src/amms/spl_token_swap_amm.rs: `SplTokenSwapAmm`, in four parts, and the
-- implementation of the trait `Amm` that they make.
pub mod Pool
pub mod Update
pub mod Quoting
pub mod Metas
pub mod Lifecycle
pub mod Implementation
