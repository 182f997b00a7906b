-- ===== src/Tests/Scans.antt =====
-- Runs of the theorems on scans, src/storage/mvcc_iterator.cpp and src/txn/txn_manager.cpp.
use trans_db.Prelude.{refl, true, false, none, some, [], ◌∷◌, ◌==◌, if◌then◌else◌}
use trans_db.Bytes.{Bytes, append_be}
use trans_db.Wal.Log.{Wal}
use trans_db.Locks.Running.{start}
use trans_db.Storage.Key.{encode_key, invert_timestamp}
use trans_db.Storage.Order.{◌<l◌}
use trans_db.Storage.Rocks.{sorted_list}
use trans_db.Storage.Iterator.{Range}
use trans_db.Txn.{TxnManager, Transaction, BufferedWrite, active}

abbrev two : Bytes
two = encode_key 3 (50 ∷ []) 5

abbrev older : Bytes
older = encode_key 3 (49 ∷ []) 4

abbrev newer : Bytes
newer = encode_key 3 (49 ∷ []) 10

-- Two versions of row 1, and one of row 2.
rows : sorted_list.Db
unfolding sorted_list ◌<l◌ encode_key append_be invert_timestamp
rows = record {
  items = (newer, 8 ∷ []) ∷ (older, 9 ∷ []) ∷ (two, 7 ∷ []) ∷ [];
  is_sorted = ((refl, (refl, tt)), ((refl, tt), (tt, tt)));
}

abbrev all_rows : Range
all_rows = record {
  table_id = 3;
  start_pk = [];
  end_pk_exclusive = [];
  snapshot_ts = 6;
  open_end_exclusive = true;
}

abbrev edit : BufferedWrite
edit = record { table_id = 3; key = 50 ∷ []; value = 6 ∷ []; is_delete = false }

abbrev writer : Transaction
writer = record {
  txn_id = 1;
  snapshot_ts = 6;
  prepare_commit_ts = 0;
  state = active;
  write_set = edit ∷ [];
  read_set = [];
  locked_keys = (3, 50 ∷ []) ∷ [];
}

abbrev log : Wal
log = record { file = []; synced = 0; good = true; next_lsn = 1 }

abbrev manager : TxnManager sorted_list
manager = record {
  txns = λ t. if 1 == t then some writer else none;
  next_txn_id = 2;
  store = rows;
  wal = log;
  locks = start;
}
