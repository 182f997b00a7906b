-- ===== src/Raft/Node/Commit.antt =====
-- The commit index of a leader: `AdvanceCommitIndexLocked` of src/raft/raft_node.cpp.
use trans_db.Prelude.{ℕ, ◌+◌, ◌≤◌, ◌≡◌}
use trans_db.Raft.Log.{term_at}
use trans_db.Raft.Node.{RaftNode, majority_threshold}
use trans_db.Raft.Node.Replicate.{count_matched}

-- An index that `AdvanceCommitIndexLocked` may commit: an entry of the node's own term that a
-- majority, the node included, holds.
unfoldable pub IsCommittable : RaftNode → ℕ → Type 0
IsCommittable n i =
    (term_at n.log i ≡ n.current_term)
    × (majority_threshold n ≤ 1 + count_matched n.match_index i n.peer_ids)
