-- ===== src/Gas.antt =====
-- pkg/gas: the overheads of an operation and the estimation of its gas limits.
pub mod Examples
pub mod Overhead
pub mod Estimate
pub mod Layer2
