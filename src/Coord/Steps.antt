-- ===== src/Coord/Steps.antt =====
-- What the log and one call of a commit do to the shards, in src/coordinator/coordinator.cpp: the records
-- of the log leave them alone, `PrepareOnShard` and `AbortOnShard` commit nothing, and what is held
-- stays held.
use trans_db.Prelude.{
  ℕ, ◌≡◌, ◌≢◌, refl, sym, subst, true, false, List, [], All, arith, inl, inr, Option-cases, ◌∙◌,
}
use trans_db.Coord.Log.{CoordinatorLogRecordType}
use trans_db.Coord.Outside.{Outside, Stub, PrepareResponse}
use trans_db.Coord.Shards.{
  Coordinator, attempts, gives_up, prepare_on_shard, commit_on_shard, abort_on_shard,
}
use trans_db.Coord.Calls.{
  append_coordinator_record_write, flush_coordinator_log, append_coordinator_record,
}
use trans_db.Coord.Keeps.{
  OfWorld-KeptByRotation, try_replicas-Keeps, try_replicas_accepted, accepted-try_replicas,
}
use trans_db.Coord.Participants.{
  ShardTxn, prepared, committed, Participants, IsHeld, prepare-IsHeld, commit-IsHeld, prepare_open,
  abort_open, commit_final,
}

module _ (O : Outside) (S : Participants O) where
  view-append_write :
      (c : Coordinator O) (type : CoordinatorLogRecordType) (t : ℕ) (shards : List ℕ) (s' t' : ℕ)
      → S.view (append_coordinator_record_write O c type t shards).0.world s' t'
        ≡ S.view c.world s' t'
  unfolding append_coordinator_record_write
  view-append_write c type t shards s' t' = elim (Option-cases c.log) [
    | inl e ↦ ground (arith, e)
    | inr (l, e) ↦
        ground
          (arith, e, S.write_quiet (O.system_clock_us c.world).0 s' t', S.clock_quiet c.world s' t')
  ]

  view-flush :
      (c : Coordinator O) (s' t' : ℕ)
      → S.view (flush_coordinator_log O c).0.world s' t' ≡ S.view c.world s' t'
  unfolding flush_coordinator_log
  view-flush c s' t' = elim (Option-cases c.log) [
    | inl e ↦ ground (arith, e)
    | inr (l, e) ↦ ground (arith, e, S.sync_quiet c.world s' t')
  ]

  -- A predicate of the shards' transactions.
  abbrev pub OnView : ((ℕ → ℕ → ShardTxn) → Type 0) → O.World → Type 0
  OnView P w = P (S.view w)

  pub append_write-Keeps :
      (P : (ℕ → ℕ → ShardTxn) → Type 0) (c : Coordinator O) (type : CoordinatorLogRecordType)
      (t : ℕ) (shards : List ℕ)
      → P (S.view c.world)
      → P (S.view (append_coordinator_record_write O c type t shards).0.world)
  append_write-Keeps P c type t shards h =
      subst P (λ i s' t'. sym (view-append_write c type t shards s' t') i) h

  pub flush-Keeps :
      (P : (ℕ → ℕ → ShardTxn) → Type 0) (c : Coordinator O)
      → P (S.view c.world)
      → P (S.view (flush_coordinator_log O c).0.world)
  flush-Keeps P c h = subst P (λ i s' t'. sym (view-flush c s' t') i) h

  pub append_record-Keeps :
      (P : (ℕ → ℕ → ShardTxn) → Type 0) (c : Coordinator O) (type : CoordinatorLogRecordType)
      (t : ℕ) (shards : List ℕ)
      → P (S.view c.world)
      → P (S.view (append_coordinator_record O c type t shards).0.world)
  unfolding append_coordinator_record
  append_record-Keeps P c type t shards h =
      let wrote = append_write-Keeps P c type t shards h in
      let flushed = flush-Keeps P (append_coordinator_record_write O c type t shards).0 wrote in
      ground (arith, wrote, flushed)

  module _ (t : ℕ) where
    -- No shard has committed the transaction.
    abbrev pub NothingCommitted : O.World → Type 0
    NothingCommitted w = (s : ℕ) → S.view w s t ≢ committed

    abbrev pub AllHeld : List ℕ → O.World → Type 0
    AllHeld sids w = All (λ s. IsHeld (S.view w s t)) sids

    abbrev pub AllCommitted : List ℕ → O.World → Type 0
    AllCommitted sids w = All (λ s. S.view w s t ≡ committed) sids

    pub prepare_on_shard-NothingCommitted :
        (c : Coordinator O) (sid ts : ℕ)
        → NothingCommitted c.world
        → NothingCommitted (prepare_on_shard O c sid t ts).0.world
    unfolding prepare_on_shard
    prepare_on_shard-NothingCommitted c sid ts h =
        try_replicas-Keeps O (λ w stub. O.prepare w sid stub t ts) (λ c'. NothingCommitted c'.world)
          (OfWorld-KeptByRotation O NothingCommitted)
          (λ c' stub k s. prepare_open (S.prepare_step c'.world sid stub t ts s t) (k s))
          (λ r. r.vote_commit) (λ r. gives_up r.error_message) (attempts O c sid) c sid
          (record { vote_commit = false; error_message = [] }) h

    pub prepare_on_shard-IsHeld :
        (c : Coordinator O) (sid ts s : ℕ)
        → IsHeld (S.view c.world s t)
        → IsHeld (S.view (prepare_on_shard O c sid t ts).0.world s t)
    unfolding prepare_on_shard
    prepare_on_shard-IsHeld c sid ts s h =
        try_replicas-Keeps O (λ w stub. O.prepare w sid stub t ts)
          (λ c'. IsHeld (S.view c'.world s t))
          (OfWorld-KeptByRotation O (λ w. IsHeld (S.view w s t)))
          (λ c' stub k. prepare-IsHeld (S.prepare_step c'.world sid stub t ts s t) k)
          (λ r. r.vote_commit) (λ r. gives_up r.error_message) (attempts O c sid) c sid
          (record { vote_commit = false; error_message = [] }) h

    pub prepare_on_shard_vote :
        (c : Coordinator O) (sid ts : ℕ)
        → (prepare_on_shard O c sid t ts).1.1.vote_commit ≡ true
        → S.view (prepare_on_shard O c sid t ts).0.world sid t ≡ prepared
    unfolding prepare_on_shard
    prepare_on_shard_vote c sid ts h =
        let none_yet : PrepareResponse = record { vote_commit = false; error_message = [] } in
        let promise =
          λ (w : O.World) (stub : Stub) (r : PrepareResponse). S.prepare_vote w sid stub t ts r in
        try_replicas_accepted O (λ w stub. O.prepare w sid stub t ts) (λ r. r.vote_commit)
          (λ w r. S.view w sid t ≡ prepared) promise (λ r. gives_up r.error_message)
          (attempts O c sid) c sid none_yet
          (sym (
              accepted-try_replicas O (λ w stub. O.prepare w sid stub t ts) (λ r. r.vote_commit)
                (λ w r. S.view w sid t ≡ prepared) promise (λ r. gives_up r.error_message)
                (attempts O c sid) c sid none_yet refl)
            ∙ h)

    pub commit_on_shard-IsHeld :
        (c : Coordinator O) (sid ts s : ℕ)
        → IsHeld (S.view c.world s t)
        → IsHeld (S.view (commit_on_shard O c sid t ts).0.world s t)
    unfolding commit_on_shard
    commit_on_shard-IsHeld c sid ts s h =
        try_replicas-Keeps O (λ w stub. O.commit w sid stub t ts)
          (λ c'. IsHeld (S.view c'.world s t))
          (OfWorld-KeptByRotation O (λ w. IsHeld (S.view w s t)))
          (λ c' stub k. commit-IsHeld (S.commit_step c'.world sid stub t ts s t) k) (λ r. r.success)
          (λ r. gives_up r.error_message) (attempts O c sid) c sid
          (record { success = false; error_message = [] }) h

    pub commit_on_shard_final :
        (c : Coordinator O) (sid ts s : ℕ)
        → S.view c.world s t ≡ committed
        → S.view (commit_on_shard O c sid t ts).0.world s t ≡ committed
    unfolding commit_on_shard
    commit_on_shard_final c sid ts s h =
        try_replicas-Keeps O (λ w stub. O.commit w sid stub t ts)
          (λ c'. S.view c'.world s t ≡ committed)
          (OfWorld-KeptByRotation O (λ w. S.view w s t ≡ committed))
          (λ c' stub k. commit_final (S.commit_step c'.world sid stub t ts s t) k) (λ r. r.success)
          (λ r. gives_up r.error_message) (attempts O c sid) c sid
          (record { success = false; error_message = [] }) h

    pub commit_on_shard_done :
        (c : Coordinator O) (sid ts : ℕ)
        → (commit_on_shard O c sid t ts).1 ≡ true
        → S.view (commit_on_shard O c sid t ts).0.world sid t ≡ committed
    unfolding commit_on_shard
    commit_on_shard_done c sid ts h =
        try_replicas_accepted O (λ w stub. O.commit w sid stub t ts) (λ r. r.success)
          (λ w r. S.view w sid t ≡ committed) (λ w stub r. S.commit_done w sid stub t ts r)
          (λ r. gives_up r.error_message) (attempts O c sid) c sid
          (record { success = false; error_message = [] }) h

    pub abort_on_shard-NothingCommitted :
        (c : Coordinator O) (sid : ℕ)
        → NothingCommitted c.world
        → NothingCommitted (abort_on_shard O c sid t).0.world
    unfolding abort_on_shard
    abort_on_shard-NothingCommitted c sid h =
        try_replicas-Keeps O _ (λ c'. NothingCommitted c'.world)
          (OfWorld-KeptByRotation O NothingCommitted)
          (λ c' stub k s. abort_open (S.abort_step c'.world sid stub t s t) (k s)) (λ r. true)
          (λ r. false) (attempts O c sid) c sid true h
