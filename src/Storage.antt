-- ===== src/Storage.antt =====
-- src/storage: keys as bytes (Key, their order in Order), RocksDB as an interface (Rocks), and the
-- multi-version store on it (Mvcc, with its theorems in the modules below).
pub mod Key
pub mod Order
pub mod Rocks
pub mod Mvcc
pub mod Seek
pub mod Visible
pub mod Updates
pub mod Hidden
pub mod Iterator
pub mod Scanned
pub mod Between
pub mod Advance
