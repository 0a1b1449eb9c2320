-- ===== src/Checks.antt =====
-- The checks of pkg/modules/checks on single operations, and the stored code hashes.
pub mod Examples
pub mod CodeHash
pub mod Saved
pub mod Values
pub mod Simulated
