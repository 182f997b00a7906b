-- ===== src/Coord/Bounds.antt =====
-- Indices of src/coordinator/coordinator.cpp: the active replica of a shard is one that it has, and a
-- key is routed to a shard that there is.
use trans_db.Prelude.{
  ℕ, zero, suc, ◌<◌, ◌≡◌, ap, true, false, none, some, List, [], ◌∷◌, ◌==◌, Status, arith,
  Option-cases, Bool-cases, ==_iff, inl, inr,
}
use trans_db.Bytes.{Bytes}
use trans_db.Coord.Log.{
  CoordinatorLogRecordType, preparing, committing, committed, aborting, aborted,
}
use trans_db.Coord.Outside.{Outside, replica}
use trans_db.Coord.Shards.{
  Coordinator, route_shard, get_stub, rotate_stub, attempts, gives_up, prepare_on_shard,
  commit_on_shard, abort_on_shard,
}
use trans_db.Coord.Calls.{append_coordinator_record_write, flush_coordinator_log, now, set_txn}
use trans_db.Coord.Commit.{
  prepare_all, commit_all, abort_all, abort_branch, commit_branch, single_shard_commit,
  two_phase_commit, commit_parts, commit_participants, commit,
}
use trans_db.Coord.Atomic.{choose}
use trans_db.Coord.Keeps.{KeptByRotation, try_replicas-Keeps}

pub route_shard-lt :
    (num_shards : ℕ) (key : Bytes) → 0 < num_shards → route_shard num_shards key < num_shards
unfolding route_shard
route_shard-lt n key h = ground arith

module _ (O : Outside) where
  -- The active index of every shard that has replicas is that of one of them.
  unfoldable pub IsInRange : Coordinator O → Type 0
  IsInRange c = (sid n : ℕ) → c.replicas sid ≡ some (suc n) → c.active_replica_index sid < suc n

  -- The connection that is used is to a replica that there is.
  pub get_stub-lt :
      (c : Coordinator O) (sid i : ℕ)
      → IsInRange c
      → get_stub O c sid ≡ some (replica i)
      → (n : ℕ) × (c.replicas sid ≡ some n) × (i < n)
  unfolding get_stub IsInRange
  get_stub-lt c sid i h e = elim (Option-cases (c.replicas sid)) [
    | inl k ↦ absurd (ground (arith, e, k))
    | inr (zero, k) ↦ absurd (ground (arith, e, k))
    | inr (suc n, k) ↦ (suc n, k, ground (arith, e, k, h sid n k))
  ]

  IsInRange-rotate_stub : KeptByRotation O IsInRange
  unfolding rotate_stub IsInRange
  IsInRange-rotate_stub c sid h sid' n e = elim (Option-cases (c.replicas sid)) [
    | inl k ↦ ground (arith, k, e, h sid' n)
    | inr (zero, k) ↦ ground (arith, k, e, h sid' n)
    | inr (suc m, k) ↦ elim (Bool-cases (sid' == sid)) [
      | inl same ↦ ground (arith, k, same, ap c.replicas ((==_iff sid' sid).0 same), e, h sid' n)
      | inr other ↦ ground (arith, k, other, e, h sid' n)
    ]
  ]

  append_write-IsInRange :
      (c : Coordinator O) (type : CoordinatorLogRecordType) (t : ℕ) (shards : List ℕ)
      → IsInRange c
      → IsInRange (append_coordinator_record_write O c type t shards).0
  unfolding append_coordinator_record_write IsInRange
  append_write-IsInRange c type t shards h sid n e = elim (Option-cases c.log) [
    | inl k ↦ ground (arith, k, h sid n)
    | inr (l, k) ↦ ground (arith, k, h sid n)
  ]

  flush-IsInRange : (c : Coordinator O) → IsInRange c → IsInRange (flush_coordinator_log O c).0
  unfolding flush_coordinator_log IsInRange
  flush-IsInRange c h sid n e = elim (Option-cases c.log) [
    | inl k ↦ ground (arith, k, h sid n)
    | inr (l, k) ↦ ground (arith, k, h sid n)
  ]

  -- Only the indices and the numbers of replicas matter.
  IsInRange-next :
      (c : Coordinator O) (w : O.World) → IsInRange c → IsInRange (record c { world = w })
  unfolding IsInRange
  IsInRange-next c w h = h

  prepare-IsInRange :
      (c : Coordinator O) (sid t ts : ℕ) → IsInRange c → IsInRange (prepare_on_shard O c sid t ts).0
  unfolding prepare_on_shard
  prepare-IsInRange c sid t ts h =
      try_replicas-Keeps O (λ w stub. O.prepare w sid stub t ts) IsInRange IsInRange-rotate_stub
        (λ c' stub. IsInRange-next c' (O.prepare c'.world sid stub t ts).0) (λ r. r.vote_commit)
        (λ r. gives_up r.error_message) (attempts O c sid) c sid
        (record { vote_commit = false; error_message = [] }) h

  commit_on_shard-IsInRange :
      (c : Coordinator O) (sid t ts : ℕ) → IsInRange c → IsInRange (commit_on_shard O c sid t ts).0
  unfolding commit_on_shard
  commit_on_shard-IsInRange c sid t ts h =
      try_replicas-Keeps O (λ w stub. O.commit w sid stub t ts) IsInRange IsInRange-rotate_stub
        (λ c' stub. IsInRange-next c' (O.commit c'.world sid stub t ts).0) (λ r. r.success)
        (λ r. gives_up r.error_message) (attempts O c sid) c sid
        (record { success = false; error_message = [] }) h

  abort_on_shard-IsInRange :
      (c : Coordinator O) (sid t : ℕ) → IsInRange c → IsInRange (abort_on_shard O c sid t).0
  unfolding abort_on_shard
  abort_on_shard-IsInRange c sid t h =
      try_replicas-Keeps O _ IsInRange IsInRange-rotate_stub
        (λ c' stub. IsInRange-next c' (O.abort c'.world sid stub t).0) (λ r. true) (λ r. false)
        (attempts O c sid) c sid true h

  prepare_all-IsInRange :
      (c : Coordinator O) (t ts : ℕ) (sids : List ℕ)
      → IsInRange c
      → IsInRange (prepare_all O c t ts sids).0
  unfolding prepare_all
  prepare_all-IsInRange c t ts [] h = h
  prepare_all-IsInRange c t ts (sid ∷ sids) h =
      prepare_all-IsInRange (prepare_on_shard O c sid t ts).0 t ts sids
        (prepare-IsInRange c sid t ts h)

  commit_all-IsInRange :
      (c : Coordinator O) (t ts : ℕ) (sids : List ℕ)
      → IsInRange c
      → IsInRange (commit_all O c t ts sids).0
  unfolding commit_all
  commit_all-IsInRange c t ts [] h = h
  commit_all-IsInRange c t ts (sid ∷ sids) h =
      commit_all-IsInRange (commit_on_shard O c sid t ts).0 t ts sids
        (commit_on_shard-IsInRange c sid t ts h)

  abort_all-IsInRange :
      (c : Coordinator O) (t : ℕ) (sids : List ℕ) → IsInRange c → IsInRange (abort_all O c t sids)
  unfolding abort_all
  abort_all-IsInRange c t [] h = h
  abort_all-IsInRange c t (sid ∷ sids) h =
      abort_all-IsInRange (abort_on_shard O c sid t).0 t sids (abort_on_shard-IsInRange c sid t h)

  abort_branch-IsInRange :
      (c : Coordinator O) (t : ℕ) (parts : List ℕ)
      → IsInRange c
      → IsInRange (abort_branch O c t parts).0
  unfolding abort_branch
  abort_branch-IsInRange c t parts h =
      let c₁ : Coordinator O = (append_coordinator_record_write O c aborting t []).0 in
      let c₂ : Coordinator O = abort_all O c₁ t parts in
      let c₃ : Coordinator O = (append_coordinator_record_write O c₂ aborted t []).0 in
      let h₄ = flush-IsInRange c₃ (
        append_write-IsInRange c₂ aborted t []
          (abort_all-IsInRange c₁ t parts (append_write-IsInRange c aborting t [] h))) in
      ground (arith, h₄)

  commit_branch-IsInRange :
      (c : Coordinator O) (t ts : ℕ) (parts : List ℕ)
      → IsInRange c
      → IsInRange (commit_branch O c t ts parts).0
  unfolding commit_branch
  commit_branch-IsInRange c t ts parts h =
      let c₁ : Coordinator O = (append_coordinator_record_write O c committing t []).0 in
      let c₂ : Coordinator O = (commit_all O c₁ t ts parts).0 in
      let c₃ : Coordinator O = (append_coordinator_record_write O c₂ committed t []).0 in
      let h₁ : IsInRange c₁ = append_write-IsInRange c committing t [] h in
      let h₂ : IsInRange c₂ = commit_all-IsInRange c₁ t ts parts h₁ in
      let h₃ : IsInRange c₃ = append_write-IsInRange c₂ committed t [] h₂ in
      ground (arith, h₁, h₂, h₃, flush-IsInRange c₃ h₃)

  single_shard_commit-IsInRange :
      (c : Coordinator O) (t sid ts : ℕ)
      → IsInRange c
      → IsInRange (single_shard_commit O c t sid ts).0
  unfolding single_shard_commit
  single_shard_commit-IsInRange c t sid ts h =
      let c₁ : Coordinator O = (append_coordinator_record_write O c preparing t (sid ∷ [])).0 in
      let c₂ : Coordinator O = (flush_coordinator_log O c₁).0 in
      let c₃ : Coordinator O = (prepare_on_shard O c₂ sid t ts).0 in
      let h₁ : IsInRange c₁ = append_write-IsInRange c preparing t (sid ∷ []) h in
      let h₂ : IsInRange c₂ = flush-IsInRange c₁ h₁ in
      let h₃ : IsInRange c₃ = prepare-IsInRange c₂ sid t ts h₂ in
      ground (
        arith,
        h₁,
        h₂,
        h₃,
        commit_branch-IsInRange c₃ t ts (sid ∷ []) h₃,
        abort_branch-IsInRange c₃ t (sid ∷ []) h₃,
      )

  two_phase_commit-IsInRange :
      (c : Coordinator O) (t : ℕ) (parts : List ℕ) (ts : ℕ)
      → IsInRange c
      → IsInRange (two_phase_commit O c t parts ts).0
  unfolding two_phase_commit
  two_phase_commit-IsInRange c t parts ts h =
      let c₁ : Coordinator O = (append_coordinator_record_write O c preparing t parts).0 in
      let c₂ : Coordinator O = (flush_coordinator_log O c₁).0 in
      let c₃ : Coordinator O = (prepare_all O c₂ t ts parts).0 in
      let h₁ : IsInRange c₁ = append_write-IsInRange c preparing t parts h in
      let h₂ : IsInRange c₂ = flush-IsInRange c₁ h₁ in
      let h₃ : IsInRange c₃ = prepare_all-IsInRange c₂ t ts parts h₂ in
      ground (
        arith,
        h₁,
        h₂,
        h₃,
        commit_branch-IsInRange c₃ t ts parts h₃,
        abort_branch-IsInRange c₃ t parts h₃,
      )

  commit_parts-IsInRange :
      (c : Coordinator O) (t : ℕ) (parts : List ℕ) (ts : ℕ)
      → IsInRange c
      → IsInRange (commit_parts O c t parts ts).0
  unfolding commit_parts
  commit_parts-IsInRange c t [] ts h = h
  commit_parts-IsInRange c t (sid ∷ []) ts h = single_shard_commit-IsInRange c t sid ts h
  commit_parts-IsInRange c t (sid ∷ sid' ∷ sids) ts h =
      two_phase_commit-IsInRange c t (sid ∷ sid' ∷ sids) ts h

  chosen :
      (parts : List ℕ) (x y : Coordinator O × Status)
      → IsInRange x.0
      → IsInRange y.0
      → IsInRange (choose parts x y).0
  chosen [] x y h k = h
  chosen (sid ∷ sids) x y h k = k

  -- If the active replica index of every shard with replicas is below their number, it is so
  -- behind a `Commit`, whatever the shards answer.
  pub commit-IsInRange :
      (c : Coordinator O) (txn_id : ℕ) → IsInRange c → IsInRange (commit O c txn_id).0
  unfolding commit commit_participants
  commit-IsInRange c txn_id h = elim (Option-cases (c.txns txn_id)) [
    | inl e ↦ rw (commit, e) h
    | inr (txn, e) ↦
        let left : IsInRange (set_txn O c txn_id none) = unfold IsInRange in h in
        let c₁ : Coordinator O = (now O c).0 in
        let h₁ : IsInRange c₁ = unfold IsInRange now in h in
        let k : IsInRange (commit_parts O c₁ txn.raft_txn_id txn.participant_shards (now O c).1).0 =
          commit_parts-IsInRange c₁ txn.raft_txn_id txn.participant_shards (now O c).1 h₁ in
        let k' : IsInRange (commit_participants O c txn_id txn).0 = unfold IsInRange in k in
        elim (Bool-cases txn.aborted) [
          | inl dead ↦ rw (commit, e, dead) left
          | inr live ↦ rw (commit, e, live) (chosen txn.participant_shards _ _ left k')
        ]
  ]
