-- ===== src/Coord/Atomic.antt =====
-- `Commit` of src/coordinator/coordinator.cpp is atomic over the shards of a transaction: it refines
-- the account of Outcomes.
use trans_db.Prelude.{
  ℕ, ◌≡◌, ◌≢◌, sym, subst, true, false, none, some, List, [], ◌∷◌, All, inl, inr, Status, ok, arith,
  Bool-cases, ◌==◌, ==_iff,
}
use trans_db.Coord.Outside.{Outside}
use trans_db.Coord.Shards.{CoordinatorTxn, Coordinator}
use trans_db.Coord.Calls.{member, now, set_txn}
use trans_db.Coord.Commit.{commit_participants, commit}
use trans_db.Coord.Participants.{ShardTxn, Participants, IsHeld}
use trans_db.Coord.Steps.{NothingCommitted}
use trans_db.Coord.Outcomes.{Outcome, commits, refuses, fails, commit_parts_lem}

abbrev pub choose : {A : Type 0} → List ℕ → A → A → A
choose parts x y = elim parts [ [] ↦ x | sid ∷ sids ↦ y ]

commit_held : {v : ShardTxn} → IsHeld v → v ≢ ShardTxn.aborted
commit_held (inl e) e' = cc
commit_held (inr e) e' = cc

All-member : (P : ℕ → Type 0) (s : ℕ) (sids : List ℕ) → All P sids → member s sids ≡ true → P s
All-member P s [] h e = absurd (ground arith)
All-member P s (x ∷ sids) h e = elim (Bool-cases (s == x)) [
  | inl k ↦ subst P (sym ((==_iff s x).0 k)) h.0
  | inr k ↦ All-member P s sids h.1 (ground (arith, e, k))
]

module _ (O : Outside) (S : Participants O) (c : Coordinator O) (txn_id : ℕ)
    (txn : CoordinatorTxn) where
  chosen :
      (parts : List ℕ) (x : Coordinator O × Status)
      → Outcome O S txn.raft_txn_id parts x.0.world x.1
      → Outcome O S txn.raft_txn_id parts
          (choose parts (set_txn O c txn_id none, ok) x).0.world
          (choose parts (set_txn O c txn_id none, ok) x).1
  chosen [] x h = commits tt
  chosen (sid ∷ sids) x h = h

  -- With shards that meet the laws of `Participants`, the `Commit` of a live transaction that no
  -- shard has committed refines the abstract account `Outcome`: with `OK` every participant has
  -- committed, with `Conflict` no shard has, and with an I/O error, the only other answer, no
  -- shard has committed or every participant is prepared or committed.
  pub commit-Outcome :
      c.txns txn_id ≡ some txn
      → txn.aborted ≡ false
      → NothingCommitted O S txn.raft_txn_id c.world
      → Outcome O S txn.raft_txn_id txn.participant_shards
          (commit O c txn_id).0.world
          (commit O c txn_id).1
  unfolding commit commit_participants now
  commit-Outcome e live h =
      rw (commit, e, live)
        (chosen txn.participant_shards (commit_participants O c txn_id txn)
          (commit_parts_lem O S txn.raft_txn_id (now O c).0 txn.participant_shards (now O c).1 h))

  -- No participant has dropped the transaction where some shard has committed it.
  pub commit-Agrees :
      (s s' : ℕ)
      → c.txns txn_id ≡ some txn
      → txn.aborted ≡ false
      → NothingCommitted O S txn.raft_txn_id c.world
      → member s' txn.participant_shards ≡ true
      → S.view (commit O c txn_id).0.world s txn.raft_txn_id ≡ ShardTxn.committed
      → S.view (commit O c txn_id).0.world s' txn.raft_txn_id ≢ ShardTxn.aborted
  commit-Agrees s s' e live h m k =
      elim (commit-Outcome e live h)
        as (λ st o. S.view (commit O c txn_id).0.world s' txn.raft_txn_id ≢ ShardTxn.aborted) [
          | commits all ↦ λ d.
              commit_held
                (inr (
                  All-member
                    (λ u. S.view (commit O c txn_id).0.world u txn.raft_txn_id ≡ ShardTxn.committed)
                    s' txn.participant_shards all m))
                d
          | refuses nothing ↦ absurd (nothing s k)
          | fails (inl nothing) ↦ absurd (nothing s k)
          | fails (inr held) ↦ commit_held (
              All-member (λ u. IsHeld (S.view (commit O c txn_id).0.world u txn.raft_txn_id)) s'
                txn.participant_shards held m)
        ]
