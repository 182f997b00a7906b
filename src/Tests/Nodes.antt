-- ===== src/Tests/Nodes.antt =====
-- Runs of the theorems on the node, src/raft/raft_node.cpp.
use trans_db.Prelude.{
  ℕ, ◌+◌, ◌-◌, ◌≡◌, ◌≢◌, ◌≤◌, ◌⊎◌, refl, inr, true, false, none, some, [], ◌∷◌, ◌++◌, take, drop,
  length, arith, min, max,
}
use trans_db.Raft.Log.{last_index, back_index, front_index, term_at}
use trans_db.Raft.Node.{
  RaftNode, replaced, with_outcomes, follower, leader, no_leader, RequestVoteRequest,
  AppendEntriesRequest, majority_threshold, handle_request_vote, apply_committed,
  handle_append_entries, become_follower, become_candidate, log_mismatch, follow,
}
use trans_db.Raft.Log.Merge.{graft}
use trans_db.Tests.Consensus.{e₂', two}
use trans_db.Raft.Node.Election.{Ballot}
use trans_db.Raft.Node.Replicate.{check_quorum}
use trans_db.Raft.Node.Vote.{Keeps, IsUpToDate, HasFreeVote, handle_request_vote-granted}
use trans_db.Raft.Node.Terms.{
  timed_out, vote_asked, here, next, Reach-Keeps, check_quorum_votes_again,
}
use trans_db.Raft.Node.Append.{apply_committed_lem, handle_append_entries_accepts}

-- A follower of a group of three with the log above.
abbrev node : RaftNode
node = record {
  current_term = 1;
  voted_for = none;
  log = two;
  role = follower;
  leader_id = no_leader;
  commit_index = 1;
  last_applied = 0;
  next_index = λ p. 3;
  match_index = λ p. 2;
  node_id = 0;
  peer_ids = 1 ∷ 2 ∷ [];
  running = true;
  immediate_replicate = false;
  pending_proposals = [];
  raft_batch_enabled = false;
  raft_batch_max = 32;
  meta = some (1, none);
  meta_outcome = replaced;
  meta_outcomes = λ k. replaced;
  applied = [];
}

abbrev chief : RaftNode
chief = record node { role = leader; leader_id = 0; voted_for = some 0; meta = some (1, some 0) }

abbrev ask : RequestVoteRequest
ask = record { term = 1; candidate_id = 2; last_log_index = 2; last_log_term = 1 }

handle_request_vote-granted_example :
    let after = (handle_request_vote node ask).0 in
    (after.current_term ≡ 1)
    × (after.voted_for ≡ some 2)
    × ((after.meta ≡ some (1, some 2)) ⊎ (after.meta_outcome ≢ replaced))
    × (after.log ≡ two)
    × IsUpToDate two ask
    × HasFreeVote node ask
unfolding handle_request_vote last_index back_index front_index term_at
handle_request_vote-granted_example = handle_request_vote-granted node ask refl

-- A vote, and then a timeout.
Reach-Keeps_example : Keeps node (become_candidate (handle_request_vote node ask).0)
Reach-Keeps_example = Reach-Keeps (next (vote_asked ask) (next timed_out here))

abbrev yes : Ballot
yes = record { resp = record { term = 2; vote_granted = true }; meanwhile = λ n. n }

check_quorum_votes_again_example :
    let after = handle_request_vote (check_quorum chief 1 0 true) ask in
    (after.1.vote_granted ≡ true) × (after.0.current_term ≡ 1)
unfolding majority_threshold IsUpToDate last_index back_index front_index term_at
check_quorum_votes_again_example =
    check_quorum_votes_again chief ask 0 refl refl (omega arith) refl (inr (refl, omega arith))

apply_committed_lem_example :
    ((apply_committed node).applied ≡ [] ++ take (1 - 0) (drop 0 two))
    × ((apply_committed node).last_applied ≡ 1)
apply_committed_lem_example =
    apply_committed_lem node (refl, (refl, tt)) (omega arith) (omega arith)

abbrev send : AppendEntriesRequest
send = record {
  term = 2;
  leader_id = 1;
  prev_log_index = 1;
  prev_log_term = 1;
  entries = e₂' ∷ [];
  leader_commit = 2;
}

handle_append_entries_accepts_example :
    let after = (handle_append_entries node send (λ k. true)).0 in
    (1 ≤ length two)
    × ((◌≡◌ {A = ℕ} 1 0) ⊎ (term_at two 1 ≡ 1))
    × (after.current_term ≡ 2)
    × (after.role ≡ follower)
    × (after.log ≡ take 1 two ++ graft (drop 1 two) (with_outcomes (λ k. true) (e₂' ∷ [])))
    × (after.commit_index ≡ max 1 (min 2 (last_index after.log)))
    × ((handle_append_entries node send (λ k. true)).1.match_index ≡ 1 + length (e₂' ∷ []))
unfolding handle_append_entries follow become_follower log_mismatch last_index back_index
    front_index term_at
handle_append_entries_accepts_example =
    handle_append_entries_accepts node send (λ k. true) (refl, (refl, tt)) (refl, tt) refl
