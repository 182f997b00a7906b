-- ===== src/Coord/Recover.antt =====
-- `Recover` of src/coordinator/coordinator.cpp: what the log says of each transaction, and how those
-- that are open are brought to an end.
use trans_db.Prelude.{
  ℕ, Bool, true, false, not, ◌&&◌, ◌||◌, none, some, List, [], ◌∷◌, ◌==◌, length, if◌then◌else◌,
  Status, ok, io_error, is_ok,
}
use trans_db.Coord.Log.{
  CoordinatorLogRecord, preparing, committing, committed, aborting, aborted, other, replay_log,
}
use trans_db.Coord.Outside.{
  Outside, TxnStateCode, txn_unknown, txn_in_flight, txn_prepared, txn_committed, txn_aborted,
}
use trans_db.Coord.Shards.{Coordinator, query_shard_txn_state}
use trans_db.Coord.Calls.{now, append_coordinator_record}
use trans_db.Coord.Commit.{commit_all, abort_all}

pub record TxnRecoveryState : Type 0 where
  pub shards : List ℕ
  pub saw_preparing : Bool
  pub saw_committing : Bool
  pub saw_committed : Bool
  pub saw_aborting : Bool
  pub saw_aborted : Bool

abbrev pub no_record : TxnRecoveryState
no_record = record {
  shards = [];
  saw_preparing = false;
  saw_committing = false;
  saw_committed = false;
  saw_aborting = false;
  saw_aborted = false;
}

-- What the visitor does to the state of the record's transaction.
unfoldable pub note : TxnRecoveryState → CoordinatorLogRecord → TxnRecoveryState
note st rec = elim (rec.type) [
  | preparing ↦ record st { saw_preparing = true; shards = rec.shards }
  | committing ↦ record st { saw_committing = true }
  | committed ↦ record st { saw_committed = true }
  | aborting ↦ record st { saw_aborting = true }
  | aborted ↦ record st { saw_aborted = true }
  | other b ↦ st
]

-- `states`, as pairs in the order in which the map is to list them: here, of first appearance.
unfoldable pub visit :
    List (ℕ × TxnRecoveryState) → CoordinatorLogRecord → List (ℕ × TxnRecoveryState)
unfolding note
visit [] rec = (rec.txn_id, note no_record rec) ∷ []
visit ((txn_id, st) ∷ states) rec =
    let rest = visit states rec in
    if txn_id == rec.txn_id then (txn_id, note st rec) ∷ states else (txn_id, st) ∷ rest

unfoldable pub visit_all :
    List (ℕ × TxnRecoveryState) → List CoordinatorLogRecord → List (ℕ × TxnRecoveryState)
visit_all states [] = states
visit_all states (rec ∷ recs) = visit_all (visit states rec) recs

-- What the answers of the shards of a transaction come to.
pub record Answers : Type 0 where
  pub any_aborted : Bool
  pub any_committed : Bool
  pub all_prepared : Bool

unfoldable pub tally : TxnStateCode → Answers → Answers
tally txn_unknown a = record a { all_prepared = false }
tally txn_in_flight a = record a { all_prepared = false }
tally txn_prepared a = a
tally txn_committed a = record a { any_committed = true }
tally txn_aborted a = record a { any_aborted = true; all_prepared = false }

-- Whether the transaction is to be committed.
unfoldable pub decides_commit : Answers → Bool
decides_commit a = not a.any_aborted && (a.all_prepared || a.any_committed)

-- Whether `Recover` has something to do for the transaction.
unfoldable pub is_open : TxnRecoveryState → Bool
is_open st =
    st.saw_preparing && not (st.saw_committed || st.saw_aborted) && not (length st.shards == 0)

module _ (O : Outside) where
  -- `DriveCommit`
  unfoldable pub drive_commit : Coordinator O → ℕ → List ℕ → Coordinator O × Status
  drive_commit c txn_id shards =
      let (c₁, commit_ts) = now O c in
      let (c₂, done) = commit_all O c₁ txn_id commit_ts shards in
      (c₂, if done then ok else io_error)

  -- `DriveAbort`, which answers `OK` always.
  unfoldable pub drive_abort : Coordinator O → ℕ → List ℕ → Coordinator O × Status
  drive_abort c txn_id shards = (abort_all O c txn_id shards, ok)

  -- The three calls that end a transaction one way.
  unfoldable pub finish_commit : Coordinator O → ℕ → List ℕ → Coordinator O × Status
  finish_commit c txn_id shards =
      let (c₁, ls) = append_coordinator_record O c committing txn_id [] in
      let (c₂, cs) = drive_commit c₁ txn_id shards in
      if is_ok ls
      then (if is_ok cs then append_coordinator_record O c₂ committed txn_id [] else (c₂, cs))
      else (c₁, ls)

  unfoldable pub finish_abort : Coordinator O → ℕ → List ℕ → Coordinator O × Status
  finish_abort c txn_id shards =
      let (c₁, ls) = append_coordinator_record O c aborting txn_id [] in
      let (c₂, st) = drive_abort c₁ txn_id shards in
      if is_ok ls
      then (if is_ok st then append_coordinator_record O c₂ aborted txn_id [] else (c₂, st))
      else (c₁, ls)

  -- The loop that asks the shards.
  unfoldable pub ask_shards : Coordinator O → ℕ → List ℕ → Answers → Coordinator O × Answers
  ask_shards c txn_id [] a = (c, a)
  ask_shards c txn_id (sid ∷ sids) a =
      let (c₁, ss) = query_shard_txn_state O c sid txn_id in ask_shards c₁ txn_id sids (tally ss a)

  -- One round of the loop over `states`.
  unfoldable pub recover_txn : Coordinator O → ℕ → TxnRecoveryState → Coordinator O × Status
  recover_txn c txn_id st =
      let (c₁, a) =
        ask_shards c txn_id st.shards
          (record { any_aborted = false; any_committed = false; all_prepared = true }) in
      if is_open st
      then (if st.saw_committing
          then finish_commit c txn_id st.shards
          else if st.saw_aborting
          then finish_abort c txn_id st.shards
          else if decides_commit a
          then finish_commit c₁ txn_id st.shards
          else finish_abort c₁ txn_id st.shards)
      else (c, ok)

  unfoldable pub recover_txns : Coordinator O → List (ℕ × TxnRecoveryState) → Coordinator O × Status
  recover_txns c [] = (c, ok)
  recover_txns c ((txn_id, st) ∷ states) =
      let (c₁, s) = recover_txn c txn_id st in
      let rest = recover_txns c₁ states in if is_ok s then rest else (c₁, s)

  -- `Recover`; `reads` is whether the log's file can be read.
  unfoldable pub recover : Coordinator O → Bool → Coordinator O × Status
  recover c reads = elim c.log [
    | none ↦ (c, ok)
    | some l ↦
        let (rs, recs) = replay_log l reads in
        let recovered = recover_txns c (visit_all [] recs) in
        if is_ok rs then recovered else (c, rs)
  ]
