-- ===== src/Jupiter.antt =====
-- The crate `jupiter`: jupiter/src/lib.rs.
pub mod Authority
pub mod Accounts
pub mod Instructions
pub mod Wire
