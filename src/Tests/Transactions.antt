-- ===== src/Tests/Transactions.antt =====
-- Runs of the theorems on transactions, src/txn/txn_manager.cpp.
use trans_db.Prelude.{
  ◌≡◌, refl, inl, inr, none, some, true, false, List, [], ◌∷◌, ◌++◌, length, All, arith,
  if◌then◌else◌, ◌==◌,
}
use trans_db.Wal.Log.{Wal, written, on_disk, failed_after, append_sync, append, sync}
use trans_db.Wal.Payload.{
  serialize_begin_payload, serialize_write_payload, serialize_prepare_payload,
}
use trans_db.Wal.Record.{WalRecord, begin, write, prepare}
use trans_db.Locks.Running.{start}
use trans_db.Storage.Rocks.{sorted_list, empty_list}
use trans_db.Txn.{
  TxnState, active, prepared, is_active, BufferedWrite, Transaction, TxnManager, Io,
  validate_read_set,
}
use trans_db.Txn.Calls.{prepare_txn}
use trans_db.Txn.Recover.{rebuild}
use trans_db.Txn.Lifecycle.{IsCurrent, prepare_txn_ok}
use trans_db.Txn.Redo.{
  FitsBuffered, record_of, Logged, empty, mine, mark, not_mine, IsMark, begun_at, rebuild_lem,
}

abbrev edit : BufferedWrite
edit = record { table_id = 3; key = 49 ∷ []; value = 8 ∷ []; is_delete = false }

abbrev running : Transaction
running = record {
  txn_id = 1;
  snapshot_ts = 5;
  prepare_commit_ts = 0;
  state = active;
  write_set = edit ∷ [];
  read_set = [];
  locked_keys = (3, 49 ∷ []) ∷ [];
}

abbrev log : Wal
log = record { file = []; synced = 0; good = true; next_lsn = 1 }

fresh : sorted_list.Db
unfolding sorted_list
fresh = empty_list

-- The transaction 1 with one write, in the state given.
abbrev manager : TxnState → TxnManager sorted_list
manager s = record {
  txns = λ t. if 1 == t then some (record running { state = s }) else none;
  next_txn_id = 2;
  store = fresh;
  wal = log;
  locks = start;
}

abbrev works : Io
works = record { outcome = written; sync_outcome = on_disk }

abbrev breaks : Io
breaks = record { outcome = failed_after 3; sync_outcome = on_disk }

prepare_txn_ok_example :
    let after = (prepare_txn sorted_list (manager active) 1 7 works).0 in
    (x : Transaction) × ((manager active).txns 1 ≡ some x)
    × (is_active x.state ≡ true)
    × All (IsCurrent sorted_list fresh 7) x.read_set
    × (after.txns 1 ≡ some (record x { state = prepared; prepare_commit_ts = 7 }))
    × (after.wal.synced ≡ length after.wal.file)
    × (after.store ≡ fresh)
    × (after.locks ≡ start)
unfolding prepare_txn validate_read_set append_sync append sync
prepare_txn_ok_example = prepare_txn_ok sorted_list (manager active) 1 7 works refl

-- The log of the transaction 1, with a record of another one in between.
abbrev records : List WalRecord
records =
    record { lsn = 1; txn_id = 1; type = begin; payload = serialize_begin_payload 5 }
    ∷ record { lsn = 2; txn_id = 2; type = begin; payload = [] }
    ∷ record {
      lsn = 3;
      txn_id = 1;
      type = write;
      payload = serialize_write_payload 3 (49 ∷ []) (8 ∷ []) 0;
    }
    ∷ record { lsn = 4; txn_id = 1; type = prepare; payload = serialize_prepare_payload 7 }
    ∷ []

records-Logged : Logged 1 records (edit ∷ [])
unfolding record_of FitsBuffered IsMark
records-Logged = mark refl (inl (refl, 5, omega arith, refl)) (
    not_mine (λ e. omega (arith, e))
      (mine {w = edit} refl refl (omega arith, omega arith, omega arith, λ e. cc)
        (mark refl (inr refl) empty)))

rebuild_lem_example :
    rebuild 1 records (record running { write_set = [] })
    ≡ some (record (record running { write_set = [] }) {
      snapshot_ts = begun_at 1 5 records;
      write_set = [] ++ edit ∷ [];
    })
rebuild_lem_example =
    rebuild_lem 1 records (edit ∷ []) (record running { write_set = [] }) records-Logged
