-- ===== src/Coord/Commit.antt =====
-- src/coordinator/coordinator.cpp: `Commit`, over one shard or by two-phase commit. The threads of a
-- phase all run to their end before the call returns, whatever the first ones answer.
use trans_db.Prelude.{
  ℕ, Bool, true, ◌&&◌, none, some, List, [], ◌∷◌, if◌then◌else◌, Status, ok, conflict, io_error,
  invalid_argument, is_ok,
}
use trans_db.Coord.Log.{preparing, committing, committed, aborting, aborted}
use trans_db.Coord.Outside.{Outside}
use trans_db.Coord.Shards.{
  CoordinatorTxn, Coordinator, prepare_on_shard, commit_on_shard, abort_on_shard,
}
use trans_db.Coord.Calls.{now, append_coordinator_record_write, flush_coordinator_log, set_txn}

module _ (O : Outside) where
  -- The threads that prepare: whether all responses vote to commit.
  unfoldable pub prepare_all : Coordinator O → ℕ → ℕ → List ℕ → Coordinator O × Bool
  prepare_all c txn ts [] = (c, true)
  prepare_all c txn ts (sid ∷ sids) =
      let (c₁, (sent, presp)) = prepare_on_shard O c sid txn ts in
      let (c₂, rest) = prepare_all c₁ txn ts sids in (c₂, presp.vote_commit && rest)

  -- The threads that commit: whether all have.
  unfoldable pub commit_all : Coordinator O → ℕ → ℕ → List ℕ → Coordinator O × Bool
  commit_all c txn ts [] = (c, true)
  commit_all c txn ts (sid ∷ sids) =
      let (c₁, done) = commit_on_shard O c sid txn ts in
      let (c₂, rest) = commit_all c₁ txn ts sids in (c₂, done && rest)

  unfoldable pub abort_all : Coordinator O → ℕ → List ℕ → Coordinator O
  abort_all c txn [] = c
  abort_all c txn (sid ∷ sids) =
      let (c₁, sent) = abort_on_shard O c sid txn in abort_all c₁ txn sids

  -- What follows a vote that is not all for commit.
  unfoldable pub abort_branch : Coordinator O → ℕ → List ℕ → Coordinator O × Status
  abort_branch c raft_txn_id parts =
      let (c₁, s₁) = append_coordinator_record_write O c aborting raft_txn_id [] in
      let c₂ = abort_all c₁ raft_txn_id parts in
      let (c₃, s₃) = append_coordinator_record_write O c₂ aborted raft_txn_id [] in
      let (c₄, ls) = flush_coordinator_log O c₃ in if is_ok ls then (c₄, conflict) else (c₄, ls)

  -- What follows a vote that is all for commit.
  unfoldable pub commit_branch : Coordinator O → ℕ → ℕ → List ℕ → Coordinator O × Status
  commit_branch c raft_txn_id commit_ts parts =
      let (c₁, s₁) = append_coordinator_record_write O c committing raft_txn_id [] in
      let (c₂, done) = commit_all c₁ raft_txn_id commit_ts parts in
      let (c₃, s₃) = append_coordinator_record_write O c₂ committed raft_txn_id [] in
      if is_ok s₁
      then (if done
          then (if is_ok s₃ then flush_coordinator_log O c₃ else (c₃, s₃))
          else (c₂, io_error))
      else (c₁, s₁)

  -- `SingleShardCommit`
  unfoldable pub single_shard_commit : Coordinator O → ℕ → ℕ → ℕ → Coordinator O × Status
  single_shard_commit c raft_txn_id shard_id commit_ts =
      let (c₁, s₁) = append_coordinator_record_write O c preparing raft_txn_id (shard_id ∷ []) in
      let (c₂, s₂) = flush_coordinator_log O c₁ in
      let (c₃, (prepared, presp)) = prepare_on_shard O c₂ shard_id raft_txn_id commit_ts in
      if is_ok s₁
      then (if is_ok s₂
          then (if prepared
              then (if presp.vote_commit
                  then commit_branch c₃ raft_txn_id commit_ts (shard_id ∷ [])
                  else abort_branch c₃ raft_txn_id (shard_id ∷ []))
              else (c₃, io_error))
          else (c₂, s₂))
      else (c₁, s₁)

  -- `TwoPhaseCommit`. All prepare calls end before the aborts are sent; the source sends these at the
  -- first vote against the commit, while other prepare calls may still run.
  unfoldable pub two_phase_commit : Coordinator O → ℕ → List ℕ → ℕ → Coordinator O × Status
  two_phase_commit c raft_txn_id parts commit_ts =
      let (c₁, s₁) = append_coordinator_record_write O c preparing raft_txn_id parts in
      let (c₂, s₂) = flush_coordinator_log O c₁ in
      let (c₃, all_vote_commit) = prepare_all c₂ raft_txn_id commit_ts parts in
      if is_ok s₁
      then (if is_ok s₂
          then (if all_vote_commit
              then commit_branch c₃ raft_txn_id commit_ts parts
              else abort_branch c₃ raft_txn_id parts)
          else (c₂, s₂))
      else (c₁, s₁)

  unfoldable pub commit_parts : Coordinator O → ℕ → List ℕ → ℕ → Coordinator O × Status
  commit_parts c raft_txn_id [] commit_ts = (c, ok)
  commit_parts c raft_txn_id (sid ∷ []) commit_ts = single_shard_commit c raft_txn_id sid commit_ts
  commit_parts c raft_txn_id (sid ∷ sid' ∷ sids) commit_ts =
      two_phase_commit c raft_txn_id (sid ∷ sid' ∷ sids) commit_ts

  -- The commit of a transaction that has participants.
  unfoldable pub commit_participants : Coordinator O → ℕ → CoordinatorTxn → Coordinator O × Status
  commit_participants c txn_id txn =
      let (c₁, commit_ts) = now O c in
      let (c₂, out) = commit_parts c₁ txn.raft_txn_id txn.participant_shards commit_ts in
      (set_txn O c₂ txn_id none, out)

  -- `Commit`
  unfoldable pub commit : Coordinator O → ℕ → Coordinator O × Status
  commit c txn_id = elim (c.txns txn_id) [
    | none ↦ (c, invalid_argument)
    | some txn ↦
        if txn.aborted
        then (set_txn O c txn_id none, invalid_argument)
        else (elim txn.participant_shards [
          | [] ↦ (set_txn O c txn_id none, ok)
          | sid ∷ sids ↦ commit_participants c txn_id txn
        ])
  ]
