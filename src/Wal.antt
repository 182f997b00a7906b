-- ===== src/Wal.antt =====
-- src/txn/wal.cpp: the write-ahead log. `WriteRecord` and `ParseRecordsFromBytes` in the child
-- Record, the log object with its file in Log, the payloads in Payload.
-- What the file system does enters as arguments: whether a write and a sync succeed.
pub mod Payload
pub mod Record
pub mod ReadBack
pub mod Replay
pub mod Torn
pub mod Group
pub mod Waits
pub mod Log
pub mod Durability
