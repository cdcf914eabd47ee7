-- ===== src/Harness/Snapshot.antt =====
-- The snapshot of a pool's accounts: lines 624 to 651 and 772 to 862 of
-- jupiter-core/src/amms/test_harness.rs.
pub mod Refusing
pub mod Addresses
pub mod Files
pub mod Readers
pub mod Contents
pub mod Restoring
pub mod Reading
pub mod RoundTrip
