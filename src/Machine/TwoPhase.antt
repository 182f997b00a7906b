-- ===== src/Machine/TwoPhase.antt =====
-- A prepared batch in src/raft/raft_state_machine.cpp: applied once, and committed by its entry.
use trans_db.Prelude.{ℕ, ◌≡◌, refl, ap, ◌∙◌, none, some, true, map, arith}
use trans_db.Wal.Payload.{serialize_commit_payload}
use trans_db.Storage.Rocks.{Rocks}
use trans_db.Raft.Log.{RaftLogEntry, txn_prepare_batch, txn_commit}
use trans_db.Txn.{Transaction, is_prepared}
use trans_db.Txn.Calls.{import_prepared_txn}
use trans_db.Txn.Lifecycle.{at_self}
use trans_db.Machine.Batch.{PrepareBatch, pack_prepare_batch_payload, pack_txn_payload}
use trans_db.Machine.Unpack.{FitsBatch, unpack_prepare_batch_payload-pack}
use trans_db.Machine.Apply.{
  Machine, Answers, to_buffered, set_local, set_result, apply, apply_prepare_batch,
}

-- The entry that prepares the batch, and the one that commits it.
abbrev pub batch_entry : ℕ → ℕ → PrepareBatch → RaftLogEntry
batch_entry index term b = record {
  index = index;
  term = term;
  type = txn_prepare_batch;
  payload = pack_prepare_batch_payload b;
}

abbrev pub commit_entry : ℕ → ℕ → ℕ → ℕ → RaftLogEntry
commit_entry index term id commit_ts = record {
  index = index;
  term = term;
  type = txn_commit;
  payload = pack_txn_payload (serialize_commit_payload commit_ts) id;
}

-- The state behind the entry that prepares a batch that is not known yet.
imported : (R : Rocks) → Machine R → PrepareBatch → Answers → Machine R
imported R m b a =
    let (manager', local) =
      import_prepared_txn R m.manager b.snapshot_ts b.commit_ts (map to_buffered b.writes) a.io
        a.outcome a.last in
    set_result R (set_local R (record m { manager = manager' }) b.raft_txn_id (some local))
      b.raft_txn_id (some true)

apply_batch :
    (R : Rocks) (m : Machine R) (index term : ℕ) (b : PrepareBatch) (a : Answers)
    → FitsBatch b
    → m.txn_id_map b.raft_txn_id ≡ none
    → apply R m (batch_entry index term b) a ≡ imported R m b a
unfolding apply apply_prepare_batch imported
apply_batch R m index term b a fits new =
    ground (arith, unpack_prepare_batch_payload-pack b fits, new)

apply_batch_known :
    (R : Rocks) (m : Machine R) (index term local : ℕ) (b : PrepareBatch) (a : Answers)
    → FitsBatch b
    → m.txn_id_map b.raft_txn_id ≡ some local
    → apply R m (batch_entry index term b) a ≡ set_result R m b.raft_txn_id (some true)
unfolding apply apply_prepare_batch
apply_batch_known R m index term local b a fits known =
    ground (arith, unpack_prepare_batch_payload-pack b fits, known)

imported_lem :
    (R : Rocks) (m : Machine R) (b : PrepareBatch) (a : Answers)
    → let t = m.manager.next_txn_id in
      ((imported R m b a).txn_id_map b.raft_txn_id ≡ some t)
      × ((imported R m b a).prepare_results b.raft_txn_id ≡ some true)
      × ((imported R m b a).manager.store ≡ m.manager.store)
      × ((x : Transaction) × ((imported R m b a).manager.txns t ≡ some x)
          × (is_prepared x.state ≡ true)
          × (x.write_set ≡ map to_buffered b.writes))
unfolding imported import_prepared_txn
imported_lem R m b a =
    let t = m.manager.next_txn_id in
    (at_self b.raft_txn_id _ _, at_self b.raft_txn_id _ _, refl, (_, at_self t _ _, refl, refl))

-- Applying the entry of a batch whose Raft transaction is not known, with numbers that fit their
-- fields, and then an entry of the same batch again: the second leaves the transaction manager as
-- the first made it, and both report success.
pub apply_batch_twice :
    (R : Rocks) (m : Machine R) (index term index' term' : ℕ) (b : PrepareBatch) (a a' : Answers)
    → FitsBatch b
    → m.txn_id_map b.raft_txn_id ≡ none
    → let once = apply R m (batch_entry index term b) a in
      let twice = apply R once (batch_entry index' term' b) a' in
      (twice.manager ≡ once.manager)
      × (once.prepare_results b.raft_txn_id ≡ some true)
      × (twice.prepare_results b.raft_txn_id ≡ some true)
apply_batch_twice R m index term index' term' b a a' fits new =
    let i = imported_lem R m b a in
    let first = apply_batch R m index term b a fits new in
    let known = ap (λ n. n.txn_id_map b.raft_txn_id) first ∙ i.0 in
    let second =
      apply_batch_known R (apply R m (batch_entry index term b) a) index' term'
        m.manager.next_txn_id b a' fits known in
    (
      ap (λ n. n.manager) second,
      ap (λ n. n.prepare_results b.raft_txn_id) first ∙ i.1,
      ap (λ n. n.prepare_results b.raft_txn_id) second ∙ at_self b.raft_txn_id (some true) _,
    )
