-- ===== src/Txn/Calls.antt =====
-- The calls of `TxnManager` in src/txn/txn_manager.cpp.
use trans_db.Prelude.{
  ℕ, ◌+◌, ◌%◌, none, some, Bool, true, false, not, List, [], ◌∷◌, ◌++◌, if◌then◌else◌, Status, ok,
  not_found, invalid_argument, conflict, is_ok,
}
use trans_db.Bytes.{Bytes, u64_mod}
use trans_db.Wal.Payload.{
  serialize_begin_payload, serialize_write_payload, serialize_delete_payload,
  serialize_prepare_payload, serialize_commit_payload,
}
use trans_db.Wal.Record.{WalRecordType, begin, write, delete, prepare, commit, abort}
use trans_db.Wal.Log.{Wal, WriteOutcome}
use trans_db.Wal.Log
use trans_db.Locks.{release_all}
use trans_db.Storage.Rocks.{Rocks}
use trans_db.Storage.Mvcc.{get}
use trans_db.Txn.{
  active, prepared, is_active, is_prepared, BufferedWrite, Transaction, TxnManager, Io,
  latest_buffered, set_txn, validate_read_set, apply_writes,
}

module _ (R : Rocks) where
  -- `Begin`
  unfoldable pub begin_txn : TxnManager R → ℕ → Io → TxnManager R × ℕ
  begin_txn m snapshot_ts io =
      let txn_id = m.next_txn_id in
      let txn : Transaction = record {
        txn_id = txn_id;
        snapshot_ts = snapshot_ts;
        prepare_commit_ts = 0;
        state = active;
        write_set = [];
        read_set = [];
        locked_keys = [];
      } in
      let (wal', s) =
        Log.append m.wal txn_id begin (serialize_begin_payload snapshot_ts) io.outcome in
      (
        set_txn R (record m { next_txn_id = (txn_id + 1) % u64_mod; wal = wal' }) txn_id (some txn),
        txn_id,
      )

  -- The loop of `ImportPreparedTxn`.
  unfoldable pub log_writes : Wal → ℕ → List BufferedWrite → (BufferedWrite → WriteOutcome) → Wal
  log_writes wal txn_id [] outcome = wal
  log_writes wal txn_id (w ∷ ws) outcome =
      let wal' =
        if w.is_delete
        then (Log.append wal txn_id delete (serialize_delete_payload w.table_id w.key 0)
            (outcome w)).0
        else (Log.append wal txn_id write (serialize_write_payload w.table_id w.key w.value 0)
            (outcome w)).0 in
      log_writes wal' txn_id ws outcome

  -- `ImportPreparedTxn`
  unfoldable pub import_prepared_txn :
      TxnManager R
      → ℕ
      → ℕ
      → List BufferedWrite
      → Io
      → (BufferedWrite → WriteOutcome)
      → Io
      → TxnManager R × ℕ
  unfolding log_writes
  import_prepared_txn m snapshot_ts commit_ts writes first outcome last =
      let txn_id = m.next_txn_id in
      let txn : Transaction = record {
        txn_id = txn_id;
        snapshot_ts = snapshot_ts;
        prepare_commit_ts = commit_ts;
        state = prepared;
        write_set = writes;
        read_set = [];
        locked_keys = [];
      } in
      let wal₁ =
        (Log.append m.wal txn_id begin (serialize_begin_payload snapshot_ts) first.outcome).0 in
      let wal₂ = log_writes wal₁ txn_id writes outcome in
      let wal₃ =
        (Log.append_sync wal₂ txn_id prepare (serialize_prepare_payload commit_ts) last.outcome
          last.sync_outcome).0 in
      (
        set_txn R (record m { next_txn_id = (txn_id + 1) % u64_mod; wal = wal₃ }) txn_id (some txn),
        txn_id,
      )

  -- `Read`, with no other section of the transaction between its two.
  unfoldable pub read_key : TxnManager R → ℕ → ℕ → Bytes → TxnManager R × Status × Bytes
  unfolding latest_buffered
  read_key m txn_id table_id key = elim (m.txns txn_id) [
    | none ↦ (m, invalid_argument, [])
    | some txn ↦
        if not (is_active txn.state)
        then (m, invalid_argument, [])
        else (elim (latest_buffered txn.write_set table_id key) [
          | some bw ↦ if bw.is_delete then (m, not_found, []) else (m, ok, bw.value)
          | none ↦ elim (get R m.store table_id key txn.snapshot_ts) [
            | none ↦ (m, not_found, [])
            | some (mv, value_ts) ↦ (
              set_txn R m txn_id (
                  some (record txn {
                    read_set =
                        txn.read_set
                        ++ record { table_id = table_id; key = key; observed_write_ts = value_ts }
                          ∷ [];
                  })),
              ok,
              mv,
            )
          ]
        ])
  ]

  -- `Abort`
  unfoldable pub abort_txn : TxnManager R → ℕ → Io → TxnManager R × Status
  abort_txn m txn_id io = elim (m.txns txn_id) [
    | none ↦ (m, ok)
    | some txn ↦
        let m₁ = set_txn R m txn_id none in
        (
          record m₁ {
            wal = (Log.append_sync m₁.wal txn_id abort [] io.outcome io.sync_outcome).0;
            locks = release_all m₁.locks txn_id;
          },
          ok,
        )
  ]

  -- The two calls that buffer a write are the same but for the record they log.
  unfoldable pub buffer_write :
      TxnManager R → ℕ → Status → BufferedWrite → WalRecordType → Bytes → Io → TxnManager R × Status
  unfolding abort_txn
  buffer_write m txn_id acq bw type payload io =
      if not (is_ok acq) then ((abort_txn m txn_id io).0, acq) else (elim (m.txns txn_id) [
        | none ↦ (record m { locks = release_all m.locks txn_id }, invalid_argument)
        | some txn ↦
            if not (is_active txn.state)
            then (record m { locks = release_all m.locks txn_id }, invalid_argument)
            else (
              record (set_txn R m txn_id (
                  some (record txn {
                    locked_keys = txn.locked_keys ++ (bw.table_id, bw.key) ∷ [];
                    write_set = txn.write_set ++ bw ∷ [];
                  }))) { wal = (Log.append m.wal txn_id type payload io.outcome).0 },
              ok,
            )
      ])

  -- `Write`, from the return of `Acquire` with the status `acq` on.
  unfoldable pub write_key :
      TxnManager R → ℕ → Status → ℕ → Bytes → Bytes → Io → TxnManager R × Status
  unfolding buffer_write
  write_key m txn_id acq table_id key value io =
      buffer_write m txn_id acq
        (record { table_id = table_id; key = key; value = value; is_delete = false }) write
        (serialize_write_payload table_id key value 0) io

  -- `Delete`, from the return of `Acquire` with the status `acq` on.
  unfoldable pub delete_key : TxnManager R → ℕ → Status → ℕ → Bytes → Io → TxnManager R × Status
  unfolding buffer_write
  delete_key m txn_id acq table_id key io =
      buffer_write m txn_id acq
        (record { table_id = table_id; key = key; value = []; is_delete = true }) delete
        (serialize_delete_payload table_id key 0) io

  -- `Prepare`
  unfoldable pub prepare_txn : TxnManager R → ℕ → ℕ → Io → TxnManager R × Status
  unfolding validate_read_set
  prepare_txn m txn_id commit_ts io = elim (m.txns txn_id) [
    | none ↦ (m, invalid_argument)
    | some txn ↦
        if not (is_active txn.state)
        then (m, invalid_argument)
        else if not (is_ok (validate_read_set R m.store txn.read_set commit_ts))
        then (
          record (set_txn R m txn_id none) {
            wal = (Log.append_sync m.wal txn_id abort [] io.outcome io.sync_outcome).0;
            locks = release_all m.locks txn_id;
          },
          conflict,
        )
        else let (wal', ws) =
            Log.append_sync m.wal txn_id prepare (serialize_prepare_payload commit_ts) io.outcome
              io.sync_outcome in
          if not (is_ok ws) then (record m { wal = wal' }, ws) else (
            record (set_txn R m txn_id
                (some (record txn { state = prepared; prepare_commit_ts = commit_ts }))) {
                  wal = wal';
                },
            ok,
          )
  ]

  -- `Commit`
  unfoldable pub commit_txn :
      TxnManager R → ℕ → ℕ → (BufferedWrite → Bool) → Io → TxnManager R × Status
  unfolding apply_writes
  commit_txn m txn_id commit_ts io_ok io = elim (m.txns txn_id) [
    | none ↦ (m, invalid_argument)
    | some txn ↦
        if not (is_prepared txn.state)
        then (m, invalid_argument)
        else let m₁ = record (set_txn R m txn_id none) {
          store = apply_writes R m.store txn.write_set commit_ts io_ok;
        } in
          let (wal', ws) =
            Log.append_sync m.wal txn_id commit (serialize_commit_payload commit_ts) io.outcome
              io.sync_outcome in
          if not (is_ok ws)
          then (record m₁ { wal = wal' }, ws)
          else (record m₁ { wal = wal'; locks = release_all m.locks txn_id }, ok)
  ]

  -- `CommitSingleShard`
  unfoldable pub commit_single_shard :
      TxnManager R → ℕ → ℕ → Io → (BufferedWrite → Bool) → Io → TxnManager R × Status
  unfolding prepare_txn commit_txn
  commit_single_shard m txn_id commit_ts io₁ io_ok io₂ =
      let (m₁, p) = prepare_txn m txn_id commit_ts io₁ in
      if not (is_ok p) then (m₁, p) else commit_txn m₁ txn_id commit_ts io_ok io₂
