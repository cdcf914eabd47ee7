-- ===== src/SwapTransaction.antt =====
-- jupiter-core/src/build_swap_transaction.rs: the accounts and the bytes of a swap instruction.
pub mod Accounts
pub mod InstructionData
pub mod Bundle
pub mod Wanted
pub mod Agreement
