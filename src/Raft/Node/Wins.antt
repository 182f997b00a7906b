-- ===== src/Raft/Node/Wins.antt =====
-- Who wins an election in `StartElection` of src/raft/raft_node.cpp.
use trans_db.Prelude.{ℕ, suc, ◌≤◌, ◌≡◌, true, List, [], ◌∷◌, if◌then◌else◌}
use trans_db.Raft.Node.{RaftNode, is_candidate, majority_threshold, become_leader}
use trans_db.Raft.Node.Election.{Ballot}

-- The number of answers that grant the vote.
unfoldable pub granted : List Ballot → ℕ
granted [] = 0
granted (b ∷ bs) = if b.resp.vote_granted then suc (granted bs) else granted bs

-- The state behind an election is that of a candidate of the term that became leader with a majority
-- of the votes, its own and those granted.
unfoldable pub IsWon : RaftNode → ℕ → ℕ → Type 0
IsWon after term_sent votes =
    (m : RaftNode) × (after ≡ become_leader m)
    × (m.current_term ≡ term_sent)
    × (is_candidate m.role ≡ true)
    × (majority_threshold m ≤ votes)
