-- ===== src/Raft/Node/Vote.antt =====
-- Terms and votes of a node of src/raft/raft_node.cpp over its sections.
use trans_db.Prelude.{
  ℕ, zero, suc, ◌+◌, ◌-◌, ◌<◌, ◌≤◌, ◌≡◌, ◌≢◌, ◌⊎◌, Option, refl, ◌∙◌, inl, inr, Bool, true, false,
  ◌&&◌, ◌||◌, not, none, some, [], ◌∷◌, ◌++◌, ltb, leb, ◌==◌, if◌then◌else◌, arith, Option-cases,
  ==_iff,
}
use trans_db.Raft.Log.{Entries, last_index, term_at, get}
use trans_db.Raft.Node.{
  RaftNode, MetaOutcome, replaced, kept, lost, meta_after, is_leader, RequestVoteRequest,
  AppendEntriesRequest, AppendEntriesResponse, become_follower, become_candidate, become_leader,
  handle_request_vote, log_mismatch, apply_rounds, apply_committed, accept_entries, follow,
  handle_append_entries,
}
use trans_db.Raft.Node.Replicate.{advance_commit_index, process_append_entries_response}

-- From `n` to `n'` the term does not fall, and a vote is kept for as long as the term is.
unfoldable pub KeepsVote : RaftNode → RaftNode → Type 0
KeepsVote n n' =
    (n.current_term ≤ n'.current_term)
    × ((v : ℕ) → n'.current_term ≡ n.current_term → n.voted_for ≡ some v → n'.voted_for ≡ some v)

-- The meta file holds the term and the vote in memory, unless the last call of `PersistMeta` did not
-- replace it.
unfoldable pub IsPersisted : RaftNode → Type 0
IsPersisted n = (n.meta ≡ some (n.current_term, n.voted_for)) ⊎ (n.meta_outcome ≢ replaced)

persisted :
    (o : MetaOutcome) (new : ℕ × Option ℕ) (old : Option (ℕ × Option ℕ))
    → (meta_after o new old ≡ some new) ⊎ (o ≢ replaced)
persisted replaced new old = inl refl
persisted kept new old = inr (λ e. cc)
persisted lost new old = inr (λ e. cc)

-- The term, the vote, the meta file with its last outcome, the role, the log and the commit index are the same.
unfoldable pub SameState : RaftNode → RaftNode → Type 0
SameState n n' =
    (n'.current_term ≡ n.current_term)
    × (n'.voted_for ≡ n.voted_for)
    × ((n'.meta ≡ n.meta) × (n'.meta_outcome ≡ n.meta_outcome))
    × (n'.role ≡ n.role)
    × (n'.log ≡ n.log)
    × (n'.commit_index ≡ n.commit_index)

pub apply_rounds-SameState : (k : ℕ) (n : RaftNode) → SameState n (apply_rounds k n)
unfolding apply_rounds SameState
apply_rounds-SameState zero n = (refl, refl, (refl, refl), refl, refl, refl)
apply_rounds-SameState (suc k) n = elim (Option-cases (get n.log (n.last_applied + 1))) [
  | inl q ↦ ground (arith, q)
  | inr (e, q) ↦ ground (
    arith,
    q,
    apply_rounds-SameState k
        (record n { applied = n.applied ++ e ∷ []; last_applied = n.last_applied + 1 }),
  )
]

pub apply_committed-SameState : (n : RaftNode) → SameState n (apply_committed n)
unfolding apply_committed
apply_committed-SameState n = apply_rounds-SameState (n.commit_index - n.last_applied) n

-- Both over a section.
unfoldable pub Keeps : RaftNode → RaftNode → Type 0
Keeps n n' = KeepsVote n n' × (IsPersisted n → IsPersisted n')

-- A section that keeps the term, the vote and the meta file.
pub keep :
    (n n' : RaftNode)
    → n'.current_term ≡ n.current_term
    → n'.voted_for ≡ n.voted_for
    → (n'.meta ≡ n.meta) × (n'.meta_outcome ≡ n.meta_outcome)
    → Keeps n n'
unfolding Keeps KeepsVote IsPersisted
keep n n' t v (m, o) = (
  (omega (arith, t), λ w e h. v ∙ h),
  λ p. elim p [ inl e ↦ inl (cc (e, t, v, m)) | inr k ↦ inr (λ e. k (cc (e, o))) ],
)

pub Keeps-refl : (n : RaftNode) → Keeps n n
unfolding Keeps KeepsVote
Keeps-refl n = ground arith

pub Keeps-trans : (n m k : RaftNode) → Keeps n m → Keeps m k → Keeps n k
unfolding Keeps KeepsVote
Keeps-trans n m k h i = (
  (
    omega (arith, h.0.0, i.0.0),
    λ v e q.
        let a : m.current_term ≡ n.current_term = omega (arith, h.0.0, i.0.0, e) in
        i.0.1 v (omega (arith, a, e)) (h.0.1 v a q),
  ),
  λ p. i.1 (h.1 p),
)

Keeps-same : (n m k : RaftNode) → Keeps n m → SameState m k → Keeps n k
unfolding SameState Keeps
Keeps-same n m k h s = Keeps-trans n m k h (keep m k s.0 s.1 s.2)

pub Keeps-either {ℓ} :
    {A : Type ℓ} (n : RaftNode) (b : Bool) (x y : RaftNode × A)
    → (b ≡ true → Keeps n x.0)
    → (b ≡ false → Keeps n y.0)
    → Keeps n (if b then x else y).0
Keeps-either n true x y h i = h refl
Keeps-either n false x y h i = i refl

pub Keeps-if :
    (n : RaftNode) (b : Bool) (x y : RaftNode)
    → (b ≡ true → Keeps n x)
    → (b ≡ false → Keeps n y)
    → Keeps n (if b then x else y)
Keeps-if n true x y h i = h refl
Keeps-if n false x y h i = i refl

-- The step down to a newer term.
pub become_follower-Keeps :
    (n : RaftNode) (t : ℕ) → n.current_term < t → Keeps n (become_follower n t)
unfolding Keeps KeepsVote IsPersisted become_follower
become_follower-Keeps n t h = (
  (omega (arith, h), λ v e q. elim (let z : ⊥ = omega (arith, h, e) in z) [ ]),
  λ _. persisted (n.meta_outcomes 0) (t, none) n.meta,
)

-- The request under the test that compares the logs.
unfoldable pub IsUpToDate : Entries → RequestVoteRequest → Type 0
IsUpToDate log req =
    (term_at log (last_index log) < req.last_log_term)
    ⊎ ((req.last_log_term ≡ term_at log (last_index log)) × (last_index log ≤ req.last_log_index))

-- The vote at the request's term: the one kept before if the term is the same, none in a new term.
abbrev pub HasFreeVote : RaftNode → RequestVoteRequest → Type 0
HasFreeVote n req =
    (n.current_term ≡ req.term) → (n.voted_for ≡ none) ⊎ (n.voted_for ≡ some req.candidate_id)

pub handle_request_vote-Keeps :
    (n : RaftNode) (req : RequestVoteRequest) → Keeps n (handle_request_vote n req).0
unfolding Keeps KeepsVote IsPersisted handle_request_vote become_follower
handle_request_vote-Keeps n req = elim (Option-cases n.voted_for) [
  | inl q ↦ ground (arith, q)
  | inr (w, q) ↦ ground (arith, q, ==_iff w req.candidate_id)
]

-- A granted vote: the node is at the request's term, its vote is the candidate's, the meta file
-- holds both unless the last call of `PersistMeta` did not replace it, the log is the one before,
-- the candidate's log is at least as up to date, and if the node was at this term already it had
-- no vote or the candidate's.
pub handle_request_vote-granted :
    (n : RaftNode) (req : RequestVoteRequest)
    → (handle_request_vote n req).1.vote_granted ≡ true
    → ((handle_request_vote n req).0.current_term ≡ req.term)
      × ((handle_request_vote n req).0.voted_for ≡ some req.candidate_id)
      × (((handle_request_vote n req).0.meta ≡ some (req.term, some req.candidate_id))
          ⊎ ((handle_request_vote n req).0.meta_outcome ≢ replaced))
      × ((handle_request_vote n req).0.log ≡ n.log)
      × IsUpToDate n.log req
      × HasFreeVote n req
unfolding handle_request_vote become_follower IsUpToDate
handle_request_vote-granted n req h = elim (Option-cases n.voted_for) [
  | inl q ↦ ground (arith, q, h)
  | inr (w, q) ↦ ground (arith, q, h, ==_iff w req.candidate_id)
]

pub follow-Keeps :
    (n : RaftNode) (req : AppendEntriesRequest) → n.current_term ≤ req.term → Keeps n (follow n req)
unfolding Keeps KeepsVote IsPersisted follow become_follower
follow-Keeps n req h = ground (arith, h)

accept_entries-Keeps :
    (n : RaftNode) (req : AppendEntriesRequest) (wrote : ℕ → Bool)
    → Keeps n (accept_entries n req wrote)
unfolding accept_entries Keeps
accept_entries-Keeps n req wrote = keep n (accept_entries n req wrote) refl refl (refl, refl)

pub handle_append_entries-Keeps :
    (n : RaftNode) (req : AppendEntriesRequest) (wrote : ℕ → Bool)
    → Keeps n (handle_append_entries n req wrote).0
unfolding handle_append_entries
handle_append_entries-Keeps n req wrote =
    Keeps-either n (ltb req.term n.current_term) _ _ (λ _. Keeps-refl n)
      (λ q.
        let f : Keeps n (follow n req) = follow-Keeps n req (ground (arith, q)) in
        Keeps-either n (log_mismatch (follow n req).log req.prev_log_index req.prev_log_term) _ _
          (λ _. f)
          (λ _.
            Keeps-same n (accept_entries (follow n req) req wrote) _
              (Keeps-trans n (follow n req) _ f (accept_entries-Keeps (follow n req) req wrote))
              (apply_committed-SameState (accept_entries (follow n req) req wrote))))

pub become_candidate-Keeps : (n : RaftNode) → Keeps n (become_candidate n)
unfolding Keeps KeepsVote IsPersisted become_candidate
become_candidate-Keeps n = ground arith

pub become_leader-Keeps : (n : RaftNode) → Keeps n (become_leader n)
unfolding Keeps become_leader
become_leader-Keeps n = keep n (become_leader n) refl refl (refl, refl)

advance_commit_index-Keeps : (n : RaftNode) → Keeps n (advance_commit_index n)
unfolding advance_commit_index
advance_commit_index-Keeps n =
    Keeps-if n (not (is_leader n.role)) _ _ (λ _. Keeps-refl n)
      (λ _.
        Keeps-if n (leb (last_index n.log) n.commit_index) _ _ (λ _. Keeps-refl n)
          (λ _. keep n _ refl refl (refl, refl)))

pub process_append_entries_response-Keeps :
    (n : RaftNode) (peer_id : ℕ) (resp : AppendEntriesResponse) (sent_term : ℕ)
    → Keeps n (process_append_entries_response n peer_id resp sent_term)
unfolding process_append_entries_response
process_append_entries_response-Keeps n peer_id resp sent_term =
    Keeps-if n (not n.running) _ _ (λ _. Keeps-refl n)
      (λ _.
        Keeps-if n (not (resp.term == 0) && ltb n.current_term resp.term) _ _
          (λ q. become_follower-Keeps n resp.term (ground (arith, q)))
          (λ _.
            Keeps-if n (not (sent_term == n.current_term) || not (is_leader n.role)) _ _
              (λ _. Keeps-refl n)
              (λ _.
                Keeps-if n (not resp.success) _ _ (λ _. keep n _ refl refl (refl, refl))
                  (λ _.
                    Keeps-same n _ _
                      (Keeps-trans n _ _ (keep n _ refl refl (refl, refl))
                        (advance_commit_index-Keeps _))
                      (apply_committed-SameState _)))))
