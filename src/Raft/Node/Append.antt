-- ===== src/Raft/Node/Append.antt =====
-- `HandleAppendEntries` and `ApplyCommitted` of src/raft/raft_node.cpp: what a follower holds, commits
-- and applies.
use trans_db.Prelude.{
  ℕ, zero, suc, ◌+◌, ◌-◌, ◌<◌, ◌≤◌, ◌≡◌, ◌⊎◌, refl, sym, ap, ap₂, subst, ◌∙◌, inl, inr, true, false,
  some, List, [], ◌∷◌, ◌++◌, take, drop, get_elem?, length, map, Bool, ltb, arith, Bool-cases,
  append-nil, ==_iff, append_assoc, max, min,
}
use trans_db.Raft.Log.{Entries, last_index, term_at, get}
use trans_db.Raft.Log.Index.{IsContiguous, IndexedFrom, last_index-length, get-suc}
use trans_db.Raft.Log.Merge.{graft, append_entries-graft}
use trans_db.Raft.Node.{
  RaftNode, follower, AppendEntriesRequest, apply_rounds, apply_committed, become_follower,
  accept_entries, with_outcomes, follow, log_mismatch, handle_append_entries,
}
use trans_db.Raft.Node.Vote.{SameState, apply_committed-SameState}

take-drop_next {ℓ} :
    {A : Type ℓ} (p k : ℕ) (xs : List A)
    → p < length xs
    → (x : A) × (get_elem? xs p ≡ some x)
      × (take (suc k) (drop p xs) ≡ x ∷ take k (drop (p + 1) xs))
take-drop_next p k [] h = elim h [ ]
take-drop_next zero k (x ∷ xs) h = (x, refl, refl)
take-drop_next (suc p) k (x ∷ xs) h =
    let (y, at, split) = take-drop_next p k xs (omega (arith, h)) in
    (
      y,
      at,
      split
          ∙ ap (λ m. y ∷ take k (drop m (x ∷ xs)))
              (let q : suc (p + 1) ≡ suc p + 1 = omega arith in q),
    )

apply_rounds_lem :
    (k : ℕ) (n : RaftNode)
    → IsContiguous n.log
    → n.last_applied + k ≤ length n.log
    → ((apply_rounds k n).applied ≡ n.applied ++ take k (drop n.last_applied n.log))
      × ((apply_rounds k n).last_applied ≡ n.last_applied + k)
unfolding apply_rounds
apply_rounds_lem zero n h le = (sym (append-nil n.applied), omega arith)
apply_rounds_lem (suc k) n h le =
    let (x, at, split) = take-drop_next n.last_applied k n.log (omega (arith, le)) in
    let found : get n.log (n.last_applied + 1) ≡ some x =
      ap (get n.log) (omega arith) ∙ get-suc n.log n.last_applied h ∙ at in
    let n₁ : RaftNode = record n {
      applied = n.applied ++ x ∷ [];
      last_applied = n.last_applied + 1;
    } in
    let ih =
      apply_rounds_lem k n₁ h
        (let q : n.last_applied + 1 + k ≤ length n.log = omega (arith, le) in q) in
    let step : apply_rounds (suc k) n ≡ apply_rounds k n₁ = ground (arith, found) in
    (
      ap (λ m. m.applied) step
          ∙ ih.0
          ∙ append_assoc n.applied (x ∷ []) _
          ∙ ap (λ l. n.applied ++ l) (sym split),
      ap (λ m. m.last_applied) step
          ∙ ih.1
          ∙ (let q : n.last_applied + 1 + k ≡ n.last_applied + suc k = omega arith in q),
    )

-- On a contiguous log that reaches the commit index, which the last applied index does not pass,
-- `ApplyCommitted` hands over exactly the entries behind the last applied one up to the commit
-- index, in order and each once, and ends with the last applied index at the commit index.
pub apply_committed_lem :
    (n : RaftNode)
    → IsContiguous n.log
    → n.last_applied ≤ n.commit_index
    → n.commit_index ≤ length n.log
    → ((apply_committed n).applied
        ≡ n.applied ++ take (n.commit_index - n.last_applied) (drop n.last_applied n.log))
      × ((apply_committed n).last_applied ≡ n.commit_index)
unfolding apply_committed
apply_committed_lem n h a c =
    let l = apply_rounds_lem (n.commit_index - n.last_applied) n h (omega (arith, a, c)) in
    (l.0, omega (arith, l.1, a))

follow-log :
    (n : RaftNode) (req : AppendEntriesRequest)
    → ((follow n req).log ≡ n.log) × ((follow n req).commit_index ≡ n.commit_index)
unfolding follow become_follower
follow-log n req = elim (Bool-cases (ltb n.current_term req.term)) [
  | inl q ↦ rw q (refl, refl)
  | inr q ↦ rw q (refl, refl)
]

follow-term :
    (n : RaftNode) (req : AppendEntriesRequest)
    → n.current_term ≤ req.term
    → ((follow n req).current_term ≡ req.term) × ((follow n req).role ≡ follower)
unfolding follow become_follower
follow-term n req h = ground (arith, h)

log_mismatch_lem :
    (es : Entries) (req : AppendEntriesRequest)
    → IsContiguous es
    → log_mismatch es req.prev_log_index req.prev_log_term ≡ false
    → (req.prev_log_index ≤ length es)
      × ((req.prev_log_index ≡ 0) ⊎ (term_at es req.prev_log_index ≡ req.prev_log_term))
unfolding log_mismatch
log_mismatch_lem es req h m =
    ground
      (arith, m, last_index-length es h, ==_iff (term_at es req.prev_log_index) req.prev_log_term)

map-with_outcomes : (wrote : ℕ → Bool) (es : Entries) → map (λ r. r.0) (with_outcomes wrote es) ≡ es
unfolding with_outcomes
map-with_outcomes wrote [] = refl
map-with_outcomes wrote (e ∷ es) = ap (◌∷◌ e) (map-with_outcomes (λ k. wrote (suc k)) es)

accept_log :
    (n : RaftNode) (req : AppendEntriesRequest) (wrote : ℕ → Bool)
    → IsContiguous n.log
    → IndexedFrom (suc req.prev_log_index) req.entries
    → req.prev_log_index ≤ length n.log
    → (accept_entries n req wrote).log
      ≡ take req.prev_log_index n.log
        ++ graft (drop req.prev_log_index n.log) (with_outcomes wrote req.entries)
unfolding accept_entries
accept_log n req wrote h i le =
    append_entries-graft n.log req.prev_log_index (with_outcomes wrote req.entries) h le
      (subst (IndexedFrom (suc req.prev_log_index)) (sym (map-with_outcomes wrote req.entries)) i)

-- On a contiguous log, with new entries numbered from the previous index on, a request that is
-- answered with success had a previous entry that is in the log with the same term, or none.
-- Behind it the node is a follower at the request's term, the log is the part up to that entry
-- with the new entries grafted on, as far as their writes to the log's file succeed, the commit
-- index is the old one or, if larger, the leader's as far as the log goes, and the answer's match
-- index is that of the last entry sent, whether or not it is in the log.
pub handle_append_entries_accepts :
    (n : RaftNode) (req : AppendEntriesRequest) (wrote : ℕ → Bool)
    → IsContiguous n.log
    → IndexedFrom (suc req.prev_log_index) req.entries
    → (handle_append_entries n req wrote).1.success ≡ true
    → let after = (handle_append_entries n req wrote).0 in
      (req.prev_log_index ≤ length n.log)
      × ((req.prev_log_index ≡ 0) ⊎ (term_at n.log req.prev_log_index ≡ req.prev_log_term))
      × (after.current_term ≡ req.term)
      × (after.role ≡ follower)
      × (after.log
          ≡ take req.prev_log_index n.log
            ++ graft (drop req.prev_log_index n.log) (with_outcomes wrote req.entries))
      × (after.commit_index ≡ max n.commit_index (min req.leader_commit (last_index after.log)))
      × ((handle_append_entries n req wrote).1.match_index
          ≡ req.prev_log_index + length req.entries)
unfolding handle_append_entries SameState accept_entries
handle_append_entries_accepts n req wrote h i ok =
    let f = follow-log n req in
    let stale : ltb req.term n.current_term ≡ false = ground (arith, ok) in
    let matches : log_mismatch (follow n req).log req.prev_log_index req.prev_log_term ≡ false =
      ground (arith, ok, stale) in
    let checked =
      log_mismatch_lem (follow n req).log req (subst IsContiguous (sym f.0) h) matches in
    let answer : handle_append_entries n req wrote ≡ (
      apply_committed (accept_entries (follow n req) req wrote),
      record {
        term = (follow n req).current_term;
        success = true;
        match_index = req.prev_log_index + length req.entries;
      },
    ) =
      ground (arith, stale, matches) in
    let same = apply_committed-SameState (accept_entries (follow n req) req wrote) in
    let t = follow-term n req (ground (arith, stale)) in
    let log_eq =
      same.4
      ∙ accept_log (follow n req) req wrote (subst IsContiguous (sym f.0) h) i checked.0
      ∙ (rw f.0 refl) in
    rw answer (
      (rw f.0 at checked.0),
      subst (λ l. (req.prev_log_index ≡ 0) ⊎ (term_at l req.prev_log_index ≡ req.prev_log_term)) f.0
          checked.1,
      same.0 ∙ t.0,
      same.3 ∙ t.1,
      log_eq,
      same.5
          ∙ (let q : max (follow n req).commit_index (
                    min req.leader_commit
                      (last_index (accept_entries (follow n req) req wrote).log))
                  ≡ max n.commit_index (
                      min req.leader_commit (
                        last_index
                          (apply_committed (accept_entries (follow n req) req wrote)).log)) =
                ap₂ (λ c l. max c (min req.leader_commit (last_index l))) f.1 (sym same.4) in
              q),
      refl,
    )
