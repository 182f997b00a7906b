-- ===== src/Txn/Effects.antt =====
-- What a commit of src/txn/txn_manager.cpp does to the store, the log and the locks, and what is left
-- where the log fails.
use trans_db.Wal.Log.{Wal}
use trans_db.Storage.Rocks.{Rocks}
