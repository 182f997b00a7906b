-- ===== src/Txn.antt =====
-- `TxnManager` of src/txn/txn_manager.cpp and `Transaction` of src/txn/transaction.h, over the store,
-- the log and the lock manager. Each definition runs one call to its end; `Write` and `Delete` start
-- where `Acquire` has returned. The answers of RocksDB and the file system are arguments.
pub mod Calls
pub mod Recover
pub mod Lifecycle
pub mod Effects
pub mod Redo
pub mod Scan
use trans_db.Prelude.{
  ℕ, Option, none, some, Bool, true, false, ◌&&◌, List, [], ◌∷◌, ◌==◌, ◌=l=◌, if◌then◌else◌, Status,
  ok, conflict,
}
use trans_db.Bytes.{Bytes}
use trans_db.Wal.Log.{Wal, WriteOutcome, SyncOutcome}
use trans_db.Locks.{LockManager}
use trans_db.Storage.Rocks.{Rocks}
use trans_db.Storage.Mvcc.{put, delete, get}

-- `TxnState`
pub data TxnState : Type 0 where
  active prepared committed aborted : TxnState

abbrev pub is_active : TxnState → Bool
is_active active = true
is_active _ = false

abbrev pub is_prepared : TxnState → Bool
is_prepared prepared = true
is_prepared _ = false

pub record BufferedWrite : Type 0 where
  pub table_id : ℕ
  pub key : Bytes
  pub value : Bytes
  pub is_delete : Bool

pub record ReadEntry : Type 0 where
  pub table_id : ℕ
  pub key : Bytes
  pub observed_write_ts : ℕ

pub record Transaction : Type 0 where
  pub txn_id : ℕ
  pub snapshot_ts : ℕ
  pub prepare_commit_ts : ℕ
  pub state : TxnState
  pub write_set : List BufferedWrite
  pub read_set : List ReadEntry
  pub locked_keys : List (ℕ × Bytes)

-- `txns` is the map `txns_`.
pub record TxnManager (R : Rocks) : Type 0 where
  pub txns : ℕ → Option Transaction
  pub next_txn_id : ℕ
  pub store : R.Db
  pub wal : Wal
  pub locks : LockManager

-- What the file system does in one call: the outcome of the write, and what `fsync` returns.
pub record Io : Type 0 where
  pub outcome : WriteOutcome
  pub sync_outcome : SyncOutcome

-- `LatestBuffered`: the last match in the list.
unfoldable pub latest_buffered : List BufferedWrite → ℕ → Bytes → Option BufferedWrite
latest_buffered [] table_id key = none
latest_buffered (w ∷ ws) table_id key =
    let later = latest_buffered ws table_id key in
    elim later [
      | some b ↦ some b
      | none ↦ if (w.table_id == table_id) && (w.key =l= key) then some w else none
    ]

module _ (R : Rocks) where
  -- `txns_[txn_id] = txn`, and `erase` for `none`.
  abbrev pub set_txn : TxnManager R → ℕ → Option Transaction → TxnManager R
  set_txn m txn_id t = record m { txns = λ u. if txn_id == u then t else m.txns u }

  -- `ValidateReadSet`
  unfoldable pub validate_read_set : R.Db → List ReadEntry → ℕ → Status
  validate_read_set d [] commit_ts = ok
  validate_read_set d (r ∷ rs) commit_ts =
      let rest = validate_read_set d rs commit_ts in
      elim (get R d r.table_id r.key commit_ts) [
        | none ↦ conflict
        | some (value, ts) ↦ if ts == r.observed_write_ts then rest else conflict
      ]

  -- `ApplyWrites`, which takes no notice of what the store answers: `io_ok` says it for each write.
  unfoldable pub apply_writes : R.Db → List BufferedWrite → ℕ → (BufferedWrite → Bool) → R.Db
  apply_writes d [] commit_ts io_ok = d
  apply_writes d (w ∷ ws) commit_ts io_ok =
      let d₁ =
        if w.is_delete
        then (delete R d w.table_id w.key commit_ts (io_ok w)).0
        else (put R d w.table_id w.key commit_ts w.value (io_ok w)).0 in
      apply_writes d₁ ws commit_ts io_ok
