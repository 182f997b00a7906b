-- ===== src/Tests.antt =====
-- Runs of the theorems at concrete inputs, by component.
pub mod Logs
pub mod Stores
pub mod Locking
pub mod Consensus
pub mod Nodes
pub mod Transactions
pub mod Machines
pub mod Rows
pub mod Coordinators
pub mod Scans
pub mod Statements
pub mod Syncs
pub mod Catalogs
