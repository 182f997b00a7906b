-- ===== src/Raft/Node/Replicate.antt =====
-- The leader's side of replication in src/raft/raft_node.cpp: requests, answers, the commit index and
-- proposals.
use trans_db.Prelude.{
  ℕ, zero, suc, ◌+◌, ◌-◌, Bool, true, false, ◌&&◌, ◌||◌, not, List, [], ◌∷◌, ◌++◌, map, length, ltb,
  leb, ◌==◌, if◌then◌else◌, max,
}
use trans_db.Bytes.{Bytes}
use trans_db.Raft.Log.{RaftEntryType, last_index, term_at, get_range, append}
use trans_db.Raft.Node.{
  RaftNode, is_leader, AppendEntriesRequest, AppendEntriesResponse, majority_threshold,
  become_follower, apply_committed,
}

-- The request of `SendAppendEntriesToAll` to the peer `p`.
unfoldable pub append_request : RaftNode → ℕ → AppendEntriesRequest
append_request n p =
    let ni = n.next_index p in
    let prev = ni - 1 in
    let last = last_index n.log in
    record {
      term = n.current_term;
      leader_id = n.node_id;
      prev_log_index = prev;
      prev_log_term = if prev == 0 then 0 else term_at n.log prev;
      entries = if leb ni last then get_range n.log ni last else [];
      leader_commit = n.commit_index;
    }

-- `SendAppendEntriesToAll` up to the sending.
unfoldable pub append_jobs : RaftNode → List (ℕ × AppendEntriesRequest)
unfolding append_request
append_jobs n =
    if not (is_leader n.role) || not n.running
    then []
    else map (λ p. (p, append_request n p)) n.peer_ids

-- `votes` of `AdvanceCommitIndexLocked`, less the node's own; a peer without an entry in the map has
-- match index 0, which counts for no index the loop tries.
unfoldable pub count_matched : (ℕ → ℕ) → ℕ → List ℕ → ℕ
count_matched match_index i [] = 0
count_matched match_index i (p ∷ ps) =
    let rest = count_matched match_index i ps in if leb i (match_index p) then suc rest else rest

-- The loop of `AdvanceCommitIndexLocked`, at the index `commit_index + k` and down.
unfoldable pub advance_loop : RaftNode → ℕ → ℕ
unfolding majority_threshold count_matched
advance_loop n zero = n.commit_index
advance_loop n (suc k) =
    let i = n.commit_index + suc k in
    let rest = advance_loop n k in
    if not (term_at n.log i == n.current_term)
    then rest
    else if leb (majority_threshold n) (1 + count_matched n.match_index i n.peer_ids)
    then i
    else rest

-- `AdvanceCommitIndexLocked`
unfoldable pub advance_commit_index : RaftNode → RaftNode
unfolding advance_loop
advance_commit_index n =
    if not (is_leader n.role)
    then n
    else if leb (last_index n.log) n.commit_index
    then n
    else record n { commit_index = advance_loop n (last_index n.log - n.commit_index) }

abbrev pub set : (ℕ → ℕ) → ℕ → ℕ → ℕ → ℕ
set f p v q = if q == p then v else f q

-- `ProcessAppendEntriesResponse`
unfoldable pub process_append_entries_response : RaftNode → ℕ → AppendEntriesResponse → ℕ → RaftNode
unfolding advance_commit_index
process_append_entries_response n peer_id resp sent_term =
    if not n.running
    then n
    else if not (resp.term == 0) && ltb n.current_term resp.term
    then become_follower n resp.term
    else if not (sent_term == n.current_term) || not (is_leader n.role)
    then n
    else if not resp.success
    then record n { next_index = set n.next_index peer_id (max 1 (n.next_index peer_id - 1)) }
    else apply_committed (
        advance_commit_index (record n {
          match_index = set n.match_index peer_id (max (n.match_index peer_id) resp.match_index);
          next_index = set n.next_index peer_id (max (n.next_index peer_id) (resp.match_index + 1));
        }))

-- The end of `SendAppendEntriesToAll`; `expired` says that the last contact with a majority is longer
-- ago than the election timeout.
unfoldable pub check_quorum : RaftNode → ℕ → ℕ → Bool → RaftNode
check_quorum n sent_term successful_peers expired =
    if not n.running || (not (is_leader n.role) || not (n.current_term == sent_term))
    then n
    else if leb (majority_threshold n) (1 + successful_peers)
    then n
    else if expired
    then become_follower n n.current_term
    else n

-- `Propose` up to the sending; `wrote` and `synced` are the results of the log's file operations.
unfoldable pub propose : RaftNode → RaftEntryType → Bytes → Bool → Bool → RaftNode × ℕ
propose n type payload wrote synced =
    if not (is_leader n.role)
    then (n, 0)
    else let (log', idx) = append n.log n.current_term type payload wrote synced in
      if idx == 0
      then (record n { log = log' }, 0)
      else if n.raft_batch_enabled
      then (record n { log = log'; pending_proposals = n.pending_proposals ++ idx ∷ [] }, idx)
      else (record n { log = log'; immediate_replicate = true }, idx)

-- `FlushPendingProposals` up to the sending.
unfoldable pub flush_pending_proposals : RaftNode → Bool → RaftNode × Bool
flush_pending_proposals n force =
    let count = length n.pending_proposals in
    if not n.running || (not (is_leader n.role) || (count == 0))
    then (n, false)
    else if not force && ltb count n.raft_batch_max
    then (n, false)
    else (record n { pending_proposals = []; immediate_replicate = true }, true)
