-- ===== src/Raft/Node/Terms.antt =====
-- Over any run of the sections of src/raft/raft_node.cpp the term does not fall and a vote is kept in
-- its term, but for the step down at the end of `SendAppendEntriesToAll`.
use trans_db.Prelude.{
  ℕ, ◌+◌, ◌<◌, ◌≡◌, refl, sym, subst, Bool, true, ◌&&◌, ◌||◌, not, List, [], ◌∷◌, ltb, leb, ◌==◌,
  if◌then◌else◌, arith, All,
}
use trans_db.Bytes.{Bytes}
use trans_db.Raft.Log.{RaftEntryType, append}
use trans_db.Raft.Node.{
  RaftNode, leader, is_leader, is_candidate, RequestVoteRequest, AppendEntriesRequest,
  AppendEntriesResponse, majority_threshold, become_follower, become_candidate, handle_request_vote,
  handle_append_entries,
}
use trans_db.Raft.Node.Election.{Ballot, election_loop, start_election}
use trans_db.Raft.Node.Replicate.{process_append_entries_response, check_quorum, propose}
use trans_db.Raft.Node.Vote.{
  Keeps, keep, Keeps-refl, Keeps-trans, Keeps-either, become_follower-Keeps, become_candidate-Keeps,
  become_leader-Keeps, handle_request_vote-Keeps, handle_append_entries-Keeps,
  process_append_entries_response-Keeps, IsUpToDate,
}

-- What the other threads do between two answers keeps terms and votes.
unfoldable pub AreKept : List Ballot → Type 0
AreKept = All (λ b. (n : RaftNode) → Keeps n (b.meanwhile n))

pub election_loop-Keeps :
    (n : RaftNode) (term_sent votes : ℕ) (ballots : List Ballot)
    → AreKept ballots
    → Keeps n (election_loop n term_sent votes ballots).0
unfolding election_loop AreKept
election_loop-Keeps n term_sent votes [] h = Keeps-refl n
election_loop-Keeps n term_sent votes (b ∷ bs) h =
    let n₁ = b.meanwhile n in
    let r = b.resp in
    let k : Keeps n n₁ = h.0 n in
    let on : (v : ℕ) → Keeps n (election_loop n₁ term_sent v bs).0 =
      λ v. Keeps-trans n n₁ _ k (election_loop-Keeps n₁ term_sent v bs h.1) in
    Keeps-either n (not n₁.running) _ _ (λ _. k)
      (λ _.
        Keeps-either n (not (r.term == 0) && ltb n₁.current_term r.term) _ _
          (λ q. Keeps-trans n n₁ _ k (become_follower-Keeps n₁ r.term (ground (arith, q))))
          (λ _.
            Keeps-either n (not (n₁.current_term == term_sent) || not (is_candidate n₁.role)) _ _
              (λ _. k)
              (λ _.
                Keeps-either n (not (r.term == 0) && ltb r.term term_sent) _ _ (λ _. on votes)
                  (λ _.
                    Keeps-either n ((r.term == 0) && not r.vote_granted) _ _ (λ _. on votes)
                      (λ _.
                        Keeps-either n
                          (leb (majority_threshold n₁)
                            (if r.vote_granted then votes + 1 else votes))
                          _ _ (λ _. Keeps-trans n n₁ _ k (become_leader-Keeps n₁))
                          (λ _. on (if r.vote_granted then votes + 1 else votes)))))))

-- If what other threads do between the answers keeps terms and votes, so does the whole of
-- `StartElection`: the term does not fall, a vote is kept for as long as the term is the same, and
-- what the meta file holds stays the term and the vote, but for a
-- `PersistMeta` that does not replace it.
pub start_election-Keeps :
    (n : RaftNode) (ballots : List Ballot) → AreKept ballots → Keeps n (start_election n ballots).0
unfolding start_election
start_election-Keeps n ballots h =
    Keeps-either n (not n.running || is_leader n.role) _ _ (λ _. Keeps-refl n)
      (λ _.
        Keeps-trans n (become_candidate n) _ (become_candidate-Keeps n)
          (election_loop-Keeps (become_candidate n) (become_candidate n).current_term 1 ballots h))

propose-Keeps :
    (n : RaftNode) (type : RaftEntryType) (payload : Bytes) (wrote synced : Bool)
    → Keeps n (propose n type payload wrote synced).0
unfolding propose
propose-Keeps n type payload wrote synced =
    Keeps-either n (not (is_leader n.role)) _ _ (λ _. Keeps-refl n)
      (λ _.
        let a = append n.log n.current_term type payload wrote synced in
        Keeps-either n (a.1 == 0) _ _ (λ _. keep n (record n { log = a.0 }) refl refl (refl, refl))
          (λ _.
            Keeps-either n n.raft_batch_enabled _ _ (λ _. keep n _ refl refl (refl, refl))
              (λ _. keep n _ refl refl (refl, refl))))

-- A section of a node, but for the step down of a leader that has lost its majority.
pub data Step : RaftNode → RaftNode → Type 0 where
  vote_asked : {n : RaftNode} (req : RequestVoteRequest) → Step n (handle_request_vote n req).0
  entries_sent :
      {n : RaftNode} (req : AppendEntriesRequest) (wrote : ℕ → Bool)
      → Step n (handle_append_entries n req wrote).0
  timed_out : {n : RaftNode} → Step n (become_candidate n)
  vote_counted :
      {n : RaftNode} (term_sent votes : ℕ) (b : Ballot)
      → ((m : RaftNode) → b.meanwhile m ≡ m)
      → Step n (election_loop n term_sent votes (b ∷ [])).0
  answered :
      {n : RaftNode} (peer_id : ℕ) (resp : AppendEntriesResponse) (sent_term : ℕ)
      → Step n (process_append_entries_response n peer_id resp sent_term)
  proposed :
      {n : RaftNode} (type : RaftEntryType) (payload : Bytes) (wrote synced : Bool)
      → Step n (propose n type payload wrote synced).0

pub data Reach : RaftNode → RaftNode → Type 0 where
  here : {n : RaftNode} → Reach n n
  next : {n m k : RaftNode} → Step n m → Reach m k → Reach n k

Step-Keeps : {n m : RaftNode} → Step n m → Keeps n m
unfolding AreKept
Step-Keeps (vote_asked req) = handle_request_vote-Keeps _ req
Step-Keeps (entries_sent req wrote) = handle_append_entries-Keeps _ req wrote
Step-Keeps timed_out = become_candidate-Keeps _
Step-Keeps (vote_counted term_sent votes b h) =
    election_loop-Keeps _ term_sent votes (b ∷ [])
      ((λ m. subst (λ k. Keeps m k) (sym (h m)) (Keeps-refl m)), tt)
Step-Keeps (answered peer_id resp sent_term) =
    process_append_entries_response-Keeps _ peer_id resp sent_term
Step-Keeps (proposed type payload wrote synced) = propose-Keeps _ type payload wrote synced

-- Over any sequence of vote requests, append requests, timeouts, counted votes, answers and
-- proposals, but without the step down of a leader that has lost its majority: the term does not
-- fall, a vote is kept for as long as the term is the same, and if before them the meta file held
-- the term and the vote in memory, or the last call of `PersistMeta` had not replaced it, so it is
-- behind them.
pub Reach-Keeps : {n m : RaftNode} → Reach n m → Keeps n m
Reach-Keeps here = Keeps-refl _
Reach-Keeps (next s r) = Keeps-trans _ _ _ (Step-Keeps s) (Reach-Keeps r)

-- A running leader that hears of less than a majority, and whose last contact with one is too long
-- ago, steps down within its term without its vote: it then grants its vote of the same term to
-- any candidate whose log is up to date.
pub check_quorum_votes_again :
    (n : RaftNode) (req : RequestVoteRequest) (answers : ℕ)
    → n.running ≡ true
    → n.role ≡ leader
    → 1 + answers < majority_threshold n
    → req.term ≡ n.current_term
    → IsUpToDate n.log req
    → ((handle_request_vote (check_quorum n n.current_term answers true) req).1.vote_granted ≡ true)
      × ((handle_request_vote (check_quorum n n.current_term answers true) req).0.current_term
          ≡ n.current_term)
unfolding check_quorum handle_request_vote become_follower IsUpToDate
check_quorum_votes_again n req answers run lead few same up =
    ground (arith, run, lead, few, same, up)
