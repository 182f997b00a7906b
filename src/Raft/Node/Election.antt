-- ===== src/Raft/Node/Election.antt =====
-- The election and the tick's decisions in src/raft/raft_node.cpp. An answer to a vote request comes
-- with the sections of other threads that run before it is taken up, as a function on the node.
use trans_db.Prelude.{
  ℕ, ◌+◌, Bool, true, false, ◌&&◌, ◌||◌, not, List, [], ◌∷◌, ltb, leb, ◌==◌, if◌then◌else◌,
}
use trans_db.Raft.Log.{last_index, term_at}
use trans_db.Raft.Node.{
  RaftNode, is_leader, is_candidate, RequestVoteRequest, RequestVoteResponse, majority_threshold,
  become_follower, become_candidate, become_leader,
}

-- An answer, and what other threads did to the node since the last one.
pub record Ballot : Type 0 where
  pub resp : RequestVoteResponse
  pub meanwhile : RaftNode → RaftNode

-- The request of `StartElection`.
unfoldable pub vote_request : RaftNode → RequestVoteRequest
vote_request n = record {
  term = n.current_term;
  candidate_id = n.node_id;
  last_log_index = last_index n.log;
  last_log_term = term_at n.log (last_index n.log);
}

-- The loop over the peers. The flag says that `SendAppendEntriesToAll` follows.
unfoldable pub election_loop : RaftNode → ℕ → ℕ → List Ballot → RaftNode × Bool
election_loop n term_sent votes [] = (n, false)
election_loop n term_sent votes (b ∷ bs) =
    let n₁ = b.meanwhile n in
    let r = b.resp in
    let votes' = if r.vote_granted then votes + 1 else votes in
    let skip = election_loop n₁ term_sent votes bs in
    let rest = election_loop n₁ term_sent votes' bs in
    if not n₁.running
    then (n₁, false)
    else if not (r.term == 0) && ltb n₁.current_term r.term
    then (become_follower n₁ r.term, false)
    else if not (n₁.current_term == term_sent) || not (is_candidate n₁.role)
    then (n₁, false)
    else if not (r.term == 0) && ltb r.term term_sent
    then skip
    else if (r.term == 0) && not r.vote_granted
    then skip
    else if leb (majority_threshold n₁) votes'
    then (become_leader n₁, true)
    else rest

-- `StartElection`, with the answers it will get.
unfoldable pub start_election : RaftNode → List Ballot → RaftNode × Bool
unfolding election_loop
start_election n ballots =
    if not n.running || is_leader n.role
    then (n, false)
    else let n₁ = become_candidate n in election_loop n₁ n₁.current_term 1 ballots
