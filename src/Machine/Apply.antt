-- ===== src/Machine/Apply.antt =====
-- `RaftStateMachine::Apply` of src/raft/raft_state_machine.cpp over the transaction manager. The
-- answers of the store, the log and the lock manager to one entry are arguments.
use trans_db.Prelude.{
  ℕ, Option, none, some, Bool, true, false, not, ◌==◌, if◌then◌else◌, length, map, Status, is_ok,
}
use trans_db.Bytes.{Bytes, read_le}
use trans_db.Wal.Log.{WriteOutcome}
use trans_db.Wal.Payload.{
  deserialize_begin_payload, deserialize_write_payload, deserialize_delete_payload,
  deserialize_prepare_payload, deserialize_commit_payload,
}
use trans_db.Storage.Rocks.{Rocks}
use trans_db.Raft.Log.{
  RaftLogEntry, txn_begin, txn_write, txn_delete, txn_prepare, txn_commit, txn_abort, noop,
  txn_prepare_batch, other,
}
use trans_db.Txn.{BufferedWrite, TxnManager, Io}
use trans_db.Txn.Calls.{
  begin_txn, import_prepared_txn, write_key, delete_key, prepare_txn, commit_txn, abort_txn,
}
use trans_db.Machine.Batch.{PrepareBatchWrite, unpack_payload, unpack_prepare_batch_payload}

-- `prepare_results` holds the flag `success` of a result.
pub record Machine (R : Rocks) : Type 0 where
  pub manager : TxnManager R
  pub txn_id_map : ℕ → Option ℕ
  pub prepare_results : ℕ → Option Bool

pub record Answers : Type 0 where
  pub acq : Status
  pub io : Io
  pub last : Io
  pub outcome : BufferedWrite → WriteOutcome
  pub io_ok : BufferedWrite → Bool

abbrev pub to_buffered : PrepareBatchWrite → BufferedWrite
to_buffered w = record {
  table_id = w.table_id;
  key = w.key;
  value = w.value;
  is_delete = w.is_delete;
}

module _ (R : Rocks) where
  abbrev pub set_local : Machine R → ℕ → Option ℕ → Machine R
  set_local m id v = record m { txn_id_map = λ u. if id == u then v else m.txn_id_map u }

  abbrev pub set_result : Machine R → ℕ → Option Bool → Machine R
  set_result m id v = record m { prepare_results = λ u. if id == u then v else m.prepare_results u }

  -- The case TXN_ABORT.
  unfoldable pub apply_abort : Machine R → Bytes → Answers → Machine R
  apply_abort m payload a =
      if not (length payload == 8)
      then m
      else let raft_tid = read_le payload in
        elim (m.txn_id_map raft_tid) [
          | none ↦ m
          | some local ↦
              set_result
                (set_local (record m { manager = (abort_txn R m.manager local a.io).0 }) raft_tid
                  none)
                raft_tid none
        ]

  -- The case TXN_PREPARE_BATCH.
  unfoldable pub apply_prepare_batch : Machine R → Bytes → Answers → Machine R
  apply_prepare_batch m payload a = elim (unpack_prepare_batch_payload payload) [
    | none ↦ m
    | some b ↦ elim (m.txn_id_map b.raft_txn_id) [
      | some local ↦ set_result m b.raft_txn_id (some true)
      | none ↦
          let (manager', local) =
            import_prepared_txn R m.manager b.snapshot_ts b.commit_ts (map to_buffered b.writes)
              a.io a.outcome a.last in
          set_result (set_local (record m { manager = manager' }) b.raft_txn_id (some local))
            b.raft_txn_id (some true)
    ]
  ]

  -- The case TXN_PREPARE, on the unpacked payload.
  unfoldable pub apply_prepare : Machine R → Bytes → ℕ → Answers → Machine R
  apply_prepare m wal_pl id a = elim (deserialize_prepare_payload wal_pl) [
    | none ↦ set_result m id (some false)
    | some commit_ts ↦ elim (m.txn_id_map id) [
      | none ↦ set_result m id (some false)
      | some local ↦
          let (manager', st) = prepare_txn R m.manager local commit_ts a.io in
          let m₁ = set_result (record m { manager = manager' }) id (some (is_ok st)) in
          if not (is_ok st)
          then set_local (record m₁ { manager = (abort_txn R manager' local a.last).0 }) id none
          else m₁
    ]
  ]

  -- The case TXN_COMMIT, on the unpacked payload.
  unfoldable pub apply_commit : Machine R → Bytes → ℕ → Answers → Machine R
  apply_commit m wal_pl id a = elim (deserialize_commit_payload wal_pl) [
    | none ↦ m
    | some commit_ts ↦ elim (m.txn_id_map id) [
      | none ↦ m
      | some local ↦
          set_result
            (set_local
              (record m { manager = (commit_txn R m.manager local commit_ts a.io_ok a.io).0 }) id
              none)
            id none
    ]
  ]

  -- The cases TXN_BEGIN, TXN_WRITE and TXN_DELETE, on the unpacked payload.
  unfoldable pub apply_begin : Machine R → Bytes → ℕ → Answers → Machine R
  apply_begin m wal_pl id a = elim (deserialize_begin_payload wal_pl) [
    | none ↦ m
    | some snapshot_ts ↦
        let (manager', local) = begin_txn R m.manager snapshot_ts a.io in
        set_local (record m { manager = manager' }) id (some local)
  ]

  unfoldable pub apply_write : Machine R → Bytes → ℕ → Answers → Machine R
  apply_write m wal_pl id a = elim (deserialize_write_payload wal_pl) [
    | none ↦ m
    | some wi ↦ elim (m.txn_id_map id) [
      | none ↦ m
      | some local ↦ record m {
        manager = (write_key R m.manager local a.acq wi.table_id wi.key wi.value a.io).0;
      }
    ]
  ]

  unfoldable pub apply_delete : Machine R → Bytes → ℕ → Answers → Machine R
  apply_delete m wal_pl id a = elim (deserialize_delete_payload wal_pl) [
    | none ↦ m
    | some di ↦ elim (m.txn_id_map id) [
      | none ↦ m
      | some local ↦ record m {
        manager = (delete_key R m.manager local a.acq di.table_id di.key a.io).0;
      }
    ]
  ]

  -- `Apply`
  unfoldable pub apply : Machine R → RaftLogEntry → Answers → Machine R
  unfolding apply_abort apply_prepare_batch apply_prepare apply_commit apply_begin apply_write
      apply_delete
  apply m e a =
      let with_id : (Bytes → ℕ → Machine R) → Machine R =
        λ f. elim (unpack_payload e.payload) [ none ↦ m | some (wal_pl, id) ↦ f wal_pl id ] in
      elim e.type [
        | noop ↦ m
        | txn_abort ↦ apply_abort m e.payload a
        | txn_prepare_batch ↦ apply_prepare_batch m e.payload a
        | txn_begin ↦ with_id (λ p id. apply_begin m p id a)
        | txn_write ↦ with_id (λ p id. apply_write m p id a)
        | txn_delete ↦ with_id (λ p id. apply_delete m p id a)
        | txn_prepare ↦ with_id (λ p id. apply_prepare m p id a)
        | txn_commit ↦ with_id (λ p id. apply_commit m p id a)
        | other b ↦ m
      ]
