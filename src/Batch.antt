-- ===== src/Batch.antt =====
-- The batch handlers of the Bundler: pkg/modules/batch, pkg/modules/gasprice, pkg/modules/expire and
-- the batch handlers of pkg/modules/checks/standalone.go.
pub mod Examples
pub mod GasLimit
pub mod StableSort
pub mod Sort
pub mod GasPrice
pub mod Sweep
pub mod Expire
pub mod PaymasterDeposit
