-- ===== src/Txn/Recover.antt =====
-- `TxnManager::Recover` of src/txn/txn_manager.cpp. A transaction is taken up at its last record, in
-- the log's order, which is the order of `txn_order`.
use trans_db.Prelude.{
  ℕ, ◌+◌, ◌%◌, Option, none, some, ◌>>=◌, Bool, true, false, ◌&&◌, ◌||◌, List, [], ◌∷◌, ◌++◌, ltb,
  ◌==◌, ◌=l=◌, if◌then◌else◌, Status, ok, io_error, timed_out, is_ok, max,
}
use trans_db.Bytes.{Bytes, u64_mod}
use trans_db.Wal.Payload.{
  deserialize_begin_payload, deserialize_write_payload, deserialize_delete_payload,
  deserialize_prepare_payload, deserialize_commit_payload,
}
use trans_db.Wal.Record.{WalRecord, begin, write, delete, prepare, commit, abort, other}
use trans_db.Wal.Log
use trans_db.Locks.{LockManager, done, blocked, acquire, time_out, make_lock_key}
use trans_db.Storage.Order.{◌<l◌}
use trans_db.Storage.Rocks.{Rocks}
use trans_db.Storage.Mvcc.{tombstone, replay_put}
use trans_db.Txn.{prepared, BufferedWrite, Transaction, TxnManager, set_txn}

unfoldable pub max_txn_id : List WalRecord → ℕ
max_txn_id [] = 0
max_txn_id (r ∷ rs) = max r.txn_id (max_txn_id rs)

-- Whether `last_index` of the transaction lies in these records.
unfoldable pub occurs : ℕ → List WalRecord → Bool
occurs tid [] = false
occurs tid (r ∷ rs) = (r.txn_id == tid) || occurs tid rs

-- The records of a prepared transaction, in order, into the object; `none` for a bad payload.
unfoldable pub rebuild : ℕ → List WalRecord → Transaction → Option Transaction
rebuild tid [] txn = some txn
rebuild tid (r ∷ rs) txn =
    if r.txn_id == tid
    then (elim r.type [
      | begin ↦
          (deserialize_begin_payload r.payload >>= λ ts.
          rebuild tid rs (record txn { snapshot_ts = ts }))
      | write ↦
          (deserialize_write_payload r.payload >>= λ wi. rebuild tid rs (record txn {
            write_set =
                txn.write_set
                ++ record {
                  table_id = wi.table_id;
                  key = wi.key;
                  value = wi.value;
                  is_delete = false;
                }
                  ∷ [];
          }))
      | delete ↦
          (deserialize_delete_payload r.payload >>= λ di. rebuild tid rs (record txn {
            write_set =
                txn.write_set
                ++ record { table_id = di.table_id; key = di.key; value = []; is_delete = true }
                  ∷ [];
          }))
      | prepare ↦ rebuild tid rs txn
      | commit ↦ rebuild tid rs txn
      | abort ↦ rebuild tid rs txn
      | other b ↦ rebuild tid rs txn
    ])
    else rebuild tid rs txn

-- `unique_keys.emplace`: a set ordered by table and key.
unfoldable pub add_key : ℕ × Bytes → List (ℕ × Bytes) → List (ℕ × Bytes)
add_key k [] = k ∷ []
add_key k (j ∷ js) =
    if (k.0 == j.0) && (k.1 =l= j.1)
    then j ∷ js
    else if ltb k.0 j.0 || ((k.0 == j.0) && (k.1 <l j.1))
    then k ∷ j ∷ js
    else j ∷ add_key k js

unfoldable pub unique_keys : List BufferedWrite → List (ℕ × Bytes) → List (ℕ × Bytes)
unfolding add_key
unique_keys [] keys = keys
unique_keys (w ∷ ws) keys = unique_keys ws (add_key (w.table_id, w.key) keys)

-- The locks are taken again. A call that blocks runs into its timeout, as nobody else is running.
unfoldable pub acquire_all : LockManager → ℕ → List (ℕ × Bytes) → LockManager × Status
acquire_all l tid [] = (l, ok)
acquire_all l tid (k ∷ ks) =
    let lk = make_lock_key k.0 k.1 in
    let (l₁, a) = acquire l lk tid in
    let rest = acquire_all l₁ tid ks in
    elim a [
      | done s ↦ if is_ok s then rest else (l₁, s)
      | blocked ↦ ((time_out l₁ lk tid).0, timed_out)
    ]

module _ (R : Rocks) where
  -- The writes of a committed transaction go to the store again, at the commit timestamp.
  unfoldable pub redo : R.Db → ℕ → ℕ → List WalRecord → R.Db × Status
  redo d tid cts [] = (d, ok)
  redo d tid cts (r ∷ rs) =
      if r.txn_id == tid
      then (elim r.type [
        | write ↦ elim (deserialize_write_payload r.payload) [
          | none ↦ (d, io_error)
          | some wi ↦ redo (replay_put R d wi.table_id wi.key cts wi.value true).0 tid cts rs
        ]
        | delete ↦ elim (deserialize_delete_payload r.payload) [
          | none ↦ (d, io_error)
          | some di ↦ redo (replay_put R d di.table_id di.key cts tombstone true).0 tid cts rs
        ]
        | begin ↦ redo d tid cts rs
        | prepare ↦ redo d tid cts rs
        | commit ↦ redo d tid cts rs
        | abort ↦ redo d tid cts rs
        | other b ↦ redo d tid cts rs
      ])
      else redo d tid cts rs

  -- One transaction: `before` are the records before its last one, `r`.
  unfoldable pub recover_txn : TxnManager R → List WalRecord → WalRecord → TxnManager R × Status
  unfolding redo rebuild unique_keys acquire_all
  recover_txn m before r = elim r.type [
    | commit ↦ elim (deserialize_commit_payload r.payload) [
      | none ↦ (m, io_error)
      | some cts ↦ let (d, s) = redo m.store r.txn_id cts before in (record m { store = d }, s)
    ]
    | prepare ↦ elim (deserialize_prepare_payload r.payload) [
      | none ↦ (m, io_error)
      | some cts ↦
          elim (rebuild r.txn_id before (record {
            txn_id = r.txn_id;
            snapshot_ts = 0;
            prepare_commit_ts = cts;
            state = prepared;
            write_set = [];
            read_set = [];
            locked_keys = [];
          })) [
            | none ↦ (m, io_error)
            | some txn ↦
                let keys = unique_keys txn.write_set [] in
                let (l, s) = acquire_all m.locks r.txn_id keys in
                if is_ok s
                then (
                  set_txn R (record m { locks = l }) r.txn_id
                      (some (record txn { locked_keys = keys })),
                  ok,
                )
                else (record m { locks = l }, s)
          ]
    ]
    | begin ↦ (m, ok)
    | write ↦ (m, ok)
    | delete ↦ (m, ok)
    | abort ↦ (m, ok)
    | other b ↦ (m, ok)
  ]

  -- The loop over `txn_order`; an error ends it.
  unfoldable pub recover_loop :
      TxnManager R → List WalRecord → List WalRecord → TxnManager R × Status
  unfolding recover_txn occurs
  recover_loop m before [] = (m, ok)
  recover_loop m before (r ∷ rs) =
      let (m₁, s) = recover_txn m before r in
      let rest = recover_loop m₁ (before ++ r ∷ []) rs in
      let skip = recover_loop m (before ++ r ∷ []) rs in
      if occurs r.txn_id rs then skip else if is_ok s then rest else (m₁, s)

  -- `Recover`; `reads` is whether the log can be read, an error that is not looked at.
  unfoldable pub recover : TxnManager R → Bool → TxnManager R × Status
  unfolding max_txn_id recover_loop
  recover m reads =
      let (wal', s, records) = Log.replay m.wal reads in
      recover_loop (record m { wal = wal'; next_txn_id = (max_txn_id records + 1) % u64_mod }) []
        records
