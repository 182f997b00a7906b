-- ===== src/Tests/Coordinators.antt =====
-- Runs of the theorems on the coordinator, src/coordinator/coordinator.cpp and coordinator_log.cpp.
use trans_db.Prelude.{
  ℕ, ◌≡◌, ◌≢◌, refl, ap, subst, ◌∙◌, inl, Bool, true, false, Option, none, some, [], ◌∷◌, take,
  ◌==◌, if◌then◌else◌, arith, ok,
}
use trans_db.Wal.Log.{written, on_disk}
use trans_db.Coord.Log.{
  CoordinatorLog, CoordinatorLogRecord, preparing, aborted, record_type_byte, record_type_of_byte,
  replay_log,
}
use trans_db.Coord.LogTrip.{FitsLogRecord, log_format, replay_log-take}
use trans_db.Bytes.Framed.{write_frames, whole_frames}
use trans_db.Coord.Outside.{
  Outside, PrepareResponse, TxnStateResponse, TxnStateCode, txn_unknown, txn_in_flight,
  txn_prepared, txn_committed, txn_aborted,
}
use trans_db.Coord.Shards.{CoordinatorTxn, Coordinator}
use trans_db.Coord.Commit.{commit}
use trans_db.Coord.Recover.{TxnRecoveryState, is_open, recover_txn}
use trans_db.Coord.Participants.{
  ShardTxn, PrepareStep, AbortStep, running, prepared, committed, stays, prepares, commits, drops,
  releases, Participants, Truthful, IsAnswer,
}
use trans_db.Coord.Atomic.{commit-Outcome}
use trans_db.Coord.Outcomes.{Outcome}
use trans_db.Coord.Resume.{Recovered, recover_txn-Recovered}
use trans_db.Coord.Bounds.{IsInRange, commit-IsInRange}

abbrev code_of : ShardTxn → TxnStateCode
code_of running = txn_in_flight
code_of prepared = txn_prepared
code_of committed = txn_committed
code_of ShardTxn.aborted = txn_aborted

abbrev after_prepare : ShardTxn → ShardTxn
after_prepare running = prepared
after_prepare v = v

abbrev is_prepared : ShardTxn → Bool
is_prepared prepared = true
is_prepared _ = false

abbrev after_abort : ShardTxn → ShardTxn
after_abort running = ShardTxn.aborted
after_abort prepared = ShardTxn.aborted
after_abort v = v

-- Shards that answer every call, and of which each is where the others are.
abbrev shards : Outside
shards = record {
  World = ShardTxn;
  JoinRequest = Unit;
  execute = λ w s stub req. (w, none);
  prepare = λ w s stub t ts. (
    after_prepare w,
    some (record { vote_commit = is_prepared (after_prepare w); error_message = [] }),
  );
  commit = λ w s stub t ts. (committed, some (record { success = true; error_message = [] }));
  abort = λ w s stub t. (after_abort w, true);
  query = λ w s stub t. (w, some (record { success = true; state = code_of w }));
  join = λ w s stub t req. (w, none);
  system_clock_us = λ w. (w, 5);
  write_log = λ w. (w, written);
  sync_log = λ w. (w, on_disk);
}

prepare_moves : (w : ShardTxn) → PrepareStep w (after_prepare w)
prepare_moves running = prepares
prepare_moves prepared = stays
prepare_moves committed = stays
prepare_moves ShardTxn.aborted = stays

abort_moves : (w : ShardTxn) → AbortStep w (after_abort w)
abort_moves running = drops
abort_moves prepared = releases
abort_moves committed = stays
abort_moves ShardTxn.aborted = stays

is_prepared_sound : (w : ShardTxn) → is_prepared w ≡ true → w ≡ prepared
is_prepared_sound running h = absurd cc
is_prepared_sound prepared h = refl
is_prepared_sound committed h = absurd cc
is_prepared_sound ShardTxn.aborted h = absurd cc

vote_of : Option PrepareResponse → Bool
vote_of none = false
vote_of (some r) = r.vote_commit

shards-Participants : Participants shards
unfolding vote_of
shards-Participants = record {
  view = λ w s t. w;
  prepare_step = λ w s stub t ts s' t'. prepare_moves w;
  prepare_vote = λ w s stub t ts r e h. is_prepared_sound (after_prepare w) (ap vote_of e ∙ h);
  commit_step = λ w s stub t ts s' t'. commits;
  commit_done = λ w s stub t ts r e h. refl;
  abort_step = λ w s stub t s' t'. abort_moves w;
  clock_quiet = λ w s' t'. refl;
  write_quiet = λ w s' t'. refl;
  sync_quiet = λ w s' t'. refl;
}

answers : (w : ShardTxn) → IsAnswer w (code_of w)
unfolding IsAnswer
answers running = tt
answers prepared = inl (inl refl)
answers committed = refl
answers ShardTxn.aborted = tt

state_of : Option TxnStateResponse → TxnStateCode
state_of none = txn_unknown
state_of (some r) = r.state

shards-Truthful : Truthful shards shards-Participants
unfolding shards-Participants state_of
shards-Truthful = record {
  query_quiet = λ w s stub t s' t'. refl;
  query_answer = λ w s stub t r e h. subst (IsAnswer w) (ap state_of e) (answers w);
}

abbrev blank : CoordinatorLog
blank = record { file = []; synced = 0; good = true }

-- The transaction 7, with the shards 0 and 1.
abbrev both : CoordinatorTxn
both = record { raft_txn_id = 7; snapshot_ts = 1; participant_shards = 0 ∷ 1 ∷ []; aborted = false }

-- Two shards: 0 with two replicas, of which the second is in use, and 1 with one address.
abbrev coordinator : ShardTxn → Coordinator shards
coordinator w = record {
  num_shards = 2;
  current = 9;
  next_txn_id = 8;
  txns = λ t. if 7 == t then some both else none;
  stubs = λ s. true;
  replicas = λ s. if s == 0 then some 2 else none;
  active_replica_index = λ s. if s == 0 then 1 else 0;
  log = some blank;
  world = w;
}

nothing_committed :
    (w : ShardTxn) → w ≢ committed → (s : ℕ) → shards-Participants.view w s 7 ≢ committed
unfolding shards-Participants
nothing_committed w h s = h

commit-Outcome_example :
    Outcome shards shards-Participants 7
      (0 ∷ 1 ∷ [])
      (commit shards (coordinator running) 7).0.world
      (commit shards (coordinator running) 7).1
commit-Outcome_example =
    commit-Outcome shards shards-Participants (coordinator running) 7 both refl refl
      (nothing_committed running (λ e. cc))

commit-IsInRange_example : IsInRange shards (commit shards (coordinator running) 7).0
unfolding IsInRange
commit-IsInRange_example =
    commit-IsInRange shards (coordinator running) 7 (λ s n e. ground (arith, e))

-- A transaction of which the log has `PREPARING` only.
abbrev in_doubt : TxnRecoveryState
in_doubt = record {
  shards = 0 ∷ 1 ∷ [];
  saw_preparing = true;
  saw_committing = false;
  saw_committed = false;
  saw_aborting = false;
  saw_aborted = false;
}

still_prepared : prepared ≢ ShardTxn.aborted
still_prepared e = cc

recover_txn-Recovered_example :
    Recovered shards shards-Participants 7 in_doubt
      (recover_txn shards (coordinator prepared) 7 in_doubt).0.world
      (recover_txn shards (coordinator prepared) 7 in_doubt).1
unfolding is_open shards-Participants
recover_txn-Recovered_example =
    recover_txn-Recovered shards shards-Participants 7 in_doubt shards-Truthful
      (coordinator prepared) refl (λ h. absurd cc) (λ h. nothing_committed prepared (λ e. cc))
      (λ h s e. still_prepared e)

abbrev begun : CoordinatorLogRecord
begun = record { type = preparing; txn_id = 7; timestamp_us = 5; shards = 0 ∷ 1 ∷ [] }

abbrev ended : CoordinatorLogRecord
ended = record { type = aborted; txn_id = 7; timestamp_us = 6; shards = [] }

-- The file of a log of two records that was cut in the second one.
abbrev cut : CoordinatorLog
cut = record {
  file = take 40 (write_frames log_format (begun ∷ ended ∷ []));
  synced = 40;
  good = true;
}

replay_log-take_example :
    replay_log cut true ≡ (ok, whole_frames log_format 40 (begun ∷ ended ∷ []))
unfolding FitsLogRecord record_type_byte record_type_of_byte
replay_log-take_example =
    replay_log-take cut (begun ∷ ended ∷ []) 40
      (
        (
          omega arith,
          omega arith,
          omega arith,
          refl,
          omega arith,
          (omega arith, (omega arith, tt)),
        ),
        ((omega arith, omega arith, omega arith, refl, omega arith, tt), tt),
      )
      refl
