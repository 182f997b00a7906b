-- ===== src/Raft/Node.antt =====
-- `RaftNode` of src/raft/raft_node.h and src/raft/raft_node.cpp. Each definition is one section under
-- the node's mutex. Time is left out: clocks and the election timeout decide when a section runs, and
-- enter as arguments. What a write of the log or of the meta file comes to is an argument or a field.
pub mod Election
pub mod Vote
pub mod Terms
pub mod Wins
pub mod Append
pub mod Replicate
pub mod Commit
pub mod Meta
use trans_db.Prelude.{
  ℕ, zero, suc, ◌+◌, ◌-◌, ◌/◌, Bool, true, false, ◌&&◌, ◌||◌, not, Option, none, some, List, [],
  ◌∷◌, ◌++◌, map, length, ltb, leb, ◌==◌, if◌then◌else◌, max, min,
}
use trans_db.Bytes.{Bytes}
use trans_db.Raft.Log.{
  RaftEntryType, noop, RaftLogEntry, Entries, last_index, term_at, get, get_range, append,
  append_entries,
}

-- `RaftRole`
pub data RaftRole : Type 0 where
  follower candidate leader : RaftRole

abbrev pub is_leader : RaftRole → Bool
is_leader leader = true
is_leader _ = false

abbrev pub is_candidate : RaftRole → Bool
is_candidate candidate = true
is_candidate _ = false

pub record AppendEntriesRequest : Type 0 where
  pub term : ℕ
  pub leader_id : ℕ
  pub prev_log_index : ℕ
  pub prev_log_term : ℕ
  pub entries : Entries
  pub leader_commit : ℕ

pub record AppendEntriesResponse : Type 0 where
  pub term : ℕ
  pub success : Bool
  pub match_index : ℕ

pub record RequestVoteRequest : Type 0 where
  pub term : ℕ
  pub candidate_id : ℕ
  pub last_log_index : ℕ
  pub last_log_term : ℕ

pub record RequestVoteResponse : Type 0 where
  pub term : ℕ
  pub vote_granted : Bool

-- `UINT32_MAX`
abbrev pub no_leader : ℕ
no_leader = 4294967295

-- What becomes of the meta file in a call of `PersistMeta`: the new one takes its place; it stays as it is
-- (there is no path, or a write or the second `rename` behind a failed `remove` fails); or it is gone
-- (the second `rename` fails behind the `remove`).
pub data MetaOutcome : Type 0 where
  replaced kept lost : MetaOutcome

-- The two index maps are functions; a peer without an entry has 0, as `operator[]` makes it.
-- `meta` is what the meta file holds, if there is one, as a process that does not crash with its machine
-- finds it; `meta_outcome` is what became of it in the last call of `PersistMeta`, and `meta_outcomes`
-- what becomes of it in the coming ones. `applied` is what was handed to the apply callback.
pub record RaftNode : Type 0 where
  pub current_term : ℕ
  pub voted_for : Option ℕ
  pub log : Entries
  pub role : RaftRole
  pub leader_id : ℕ
  pub commit_index : ℕ
  pub last_applied : ℕ
  pub next_index : ℕ → ℕ
  pub match_index : ℕ → ℕ
  pub node_id : ℕ
  pub peer_ids : List ℕ
  pub running : Bool
  pub immediate_replicate : Bool
  pub pending_proposals : List ℕ
  pub raft_batch_enabled : Bool
  pub raft_batch_max : ℕ
  pub meta : Option (ℕ × Option ℕ)
  pub meta_outcome : MetaOutcome
  pub meta_outcomes : ℕ → MetaOutcome
  pub applied : Entries

-- `MajorityThreshold`
unfoldable pub majority_threshold : RaftNode → ℕ
majority_threshold n = (length n.peer_ids + 1) / 2 + 1

abbrev pub meta_after : MetaOutcome → ℕ × Option ℕ → Option (ℕ × Option ℕ) → Option (ℕ × Option ℕ)
meta_after replaced new old = some new
meta_after kept new old = old
meta_after lost new old = none

-- `PersistMeta`
abbrev pub persist_meta : RaftNode → RaftNode
persist_meta n = record n {
  meta = meta_after (n.meta_outcomes 0) (n.current_term, n.voted_for) n.meta;
  meta_outcome = n.meta_outcomes 0;
  meta_outcomes = λ k. n.meta_outcomes (suc k);
}

-- `BecomeFollower`
unfoldable pub become_follower : RaftNode → ℕ → RaftNode
become_follower n term =
    record (persist_meta (record n { current_term = term; voted_for = none })) {
      role = follower;
      leader_id = no_leader;
      pending_proposals = [];
    }

-- `BecomeCandidateLocked`
unfoldable pub become_candidate : RaftNode → RaftNode
become_candidate n =
    record (persist_meta (record n {
      role = candidate;
      current_term = n.current_term + 1;
      voted_for = some n.node_id;
    })) { leader_id = no_leader }

abbrev pub mem_id : ℕ → List ℕ → Bool
mem_id p [] = false
mem_id p (q ∷ qs) = (q == p) || mem_id p qs

-- `BecomeLeaderLocked`; the write of its `NOOP` entry is taken to succeed.
unfoldable pub become_leader : RaftNode → RaftNode
become_leader n =
    let (log', idx) = append n.log n.current_term noop [] true true in
    record n {
      role = leader;
      leader_id = n.node_id;
      next_index = λ p. if mem_id p n.peer_ids then last_index n.log + 1 else n.next_index p;
      match_index = λ p. if mem_id p n.peer_ids then 0 else n.match_index p;
      immediate_replicate = true;
      log = log';
      pending_proposals =
          if not (idx == 0) && n.raft_batch_enabled
          then n.pending_proposals ++ idx ∷ []
          else n.pending_proposals;
    }

-- `HandleRequestVote`
unfoldable pub handle_request_vote : RaftNode → RequestVoteRequest → RaftNode × RequestVoteResponse
handle_request_vote n req =
    if ltb req.term n.current_term
    then (n, record { term = n.current_term; vote_granted = false })
    else let n₁ = if ltb n.current_term req.term then become_follower n req.term else n in
      let last_idx = last_index n₁.log in
      let last_term = term_at n₁.log last_idx in
      let up_to_date =
        ltb last_term req.last_log_term
        || ((req.last_log_term == last_term) && leb last_idx req.last_log_index) in
      let free : Bool = elim n₁.voted_for [ none ↦ true | some v ↦ v == req.candidate_id ] in
      if free && up_to_date
      then (
        persist_meta (record n₁ { voted_for = some req.candidate_id }),
        record { term = n₁.current_term; vote_granted = true },
      )
      else (n₁, record { term = n₁.current_term; vote_granted = false })

-- The test on the entry before the new ones.
unfoldable pub log_mismatch : Entries → ℕ → ℕ → Bool
log_mismatch log prev_log_index prev_log_term =
    ltb 0 prev_log_index
    && (ltb (last_index log) prev_log_index || not (term_at log prev_log_index == prev_log_term))

-- `ApplyCommitted`: `rounds` is `commit_index_ - last_applied_`.
unfoldable pub apply_rounds : ℕ → RaftNode → RaftNode
apply_rounds zero n = n
apply_rounds (suc rounds) n = elim (get n.log (n.last_applied + 1)) [
  | none ↦ n
  | some e ↦
      apply_rounds rounds
        (record n { applied = n.applied ++ e ∷ []; last_applied = n.last_applied + 1 })
]

unfoldable pub apply_committed : RaftNode → RaftNode
unfolding apply_rounds
apply_committed n = apply_rounds (n.commit_index - n.last_applied) n

-- The new entries with the outcomes of their writes to the file, by their places in the request.
unfoldable pub with_outcomes : (ℕ → Bool) → Entries → List (RaftLogEntry × Bool)
with_outcomes wrote [] = []
with_outcomes wrote (e ∷ es) = (e, wrote 0) ∷ with_outcomes (λ k. wrote (suc k)) es

-- The part of `HandleAppendEntries` behind the consistency check.
unfoldable pub accept_entries : RaftNode → AppendEntriesRequest → (ℕ → Bool) → RaftNode
unfolding with_outcomes
accept_entries n req wrote =
    let log' = (append_entries n.log false (with_outcomes wrote req.entries)).0 in
    record n {
      log = log';
      commit_index = max n.commit_index (min req.leader_commit (last_index log'));
    }

-- The term, role and leader after a request whose term is not stale.
unfoldable pub follow : RaftNode → AppendEntriesRequest → RaftNode
unfolding become_follower
follow n req =
    let n₁ =
      if ltb n.current_term req.term
      then become_follower n req.term
      else record n { role = follower } in
    record n₁ { leader_id = req.leader_id }

-- `HandleAppendEntries`; `wrote` is whether the write of an entry to the log's file succeeds.
unfoldable pub handle_append_entries :
    RaftNode → AppendEntriesRequest → (ℕ → Bool) → RaftNode × AppendEntriesResponse
unfolding follow accept_entries log_mismatch
handle_append_entries n req wrote =
    if ltb req.term n.current_term
    then (n, record { term = n.current_term; success = false; match_index = 0 })
    else let n₁ = follow n req in
      if log_mismatch n₁.log req.prev_log_index req.prev_log_term
      then (n₁, record { term = n₁.current_term; success = false; match_index = 0 })
      else (
        apply_committed (accept_entries n₁ req wrote),
        record {
          term = n₁.current_term;
          success = true;
          match_index = req.prev_log_index + length req.entries;
        },
      )
