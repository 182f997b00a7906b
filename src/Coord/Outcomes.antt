-- ===== src/Coord/Outcomes.antt =====
-- How a commit of src/coordinator/coordinator.cpp may end, and the code's branches and phases against
-- that account.
use trans_db.Prelude.{
  ℕ, ◌≡◌, ◌≢◌, refl, sym, subst, Bool, true, false, List, [], ◌∷◌, All, All-map, ◌⊎◌, inl, inr,
  Status, ok, conflict, io_error, is_ok, arith, Option-cases, if◌then◌else◌,
}
use trans_db.Wal.Log.{WriteOutcome, written, failed_after, SyncOutcome}
use trans_db.Coord.Log.{
  CoordinatorLog, CoordinatorLogRecord, CoordinatorLogRecordType, preparing, committing, committed,
  aborting, aborted, append_write, flush,
}
use trans_db.Coord.Outside.{Outside}
use trans_db.Coord.Shards.{Coordinator, prepare_on_shard}
use trans_db.Coord.Calls.{append_coordinator_record_write, flush_coordinator_log}
use trans_db.Coord.Commit.{
  prepare_all, commit_all, abort_all, abort_branch, commit_branch, single_shard_commit,
  two_phase_commit, commit_parts,
}
use trans_db.Coord.Participants.{ShardTxn, Participants, IsHeld}
use trans_db.Coord.Steps.{
  NothingCommitted, AllHeld, AllCommitted, append_write-Keeps, flush-Keeps,
  prepare_on_shard-NothingCommitted, prepare_on_shard_vote,
}
use trans_db.Coord.Phases.{
  prepare_all-NothingCommitted, prepare_all-AllHeld, commit_all-AllHeld, commit_all-AllCommitted,
  abort_all-NothingCommitted,
}

append_write_status :
    (l : CoordinatorLog) (r : CoordinatorLogRecord) (outcome : WriteOutcome)
    → ((append_write l r outcome).1 ≡ ok) ⊎ ((append_write l r outcome).1 ≡ io_error)
unfolding append_write
append_write_status l r written = ground arith
append_write_status l r (failed_after n) = ground arith

flush_status :
    (l : CoordinatorLog) (b : SyncOutcome) → ((flush l b).1 ≡ ok) ⊎ ((flush l b).1 ≡ io_error)
unfolding flush
flush_status l b = ground arith

module _ (O : Outside) (S : Participants O) (t : ℕ) where
  -- How a commit may end: with `OK`, all participants have committed; with `Conflict`, no shard has;
  -- with an error of a log or a call, none has, or all participants are prepared or have committed, so
  -- that the commit can still be brought to its end.
  pub data Outcome (parts : List ℕ) (w : O.World) : Status → Type 0 where
    commits : AllCommitted O S t parts w → Outcome parts w ok
    refuses : NothingCommitted O S t w → Outcome parts w conflict
    fails : NothingCommitted O S t w ⊎ AllHeld O S t parts w → Outcome parts w io_error

  pub write_status :
      (c : Coordinator O) (type : CoordinatorLogRecordType) (shards : List ℕ)
      → ((append_coordinator_record_write O c type t shards).1 ≡ ok)
        ⊎ ((append_coordinator_record_write O c type t shards).1 ≡ io_error)
  unfolding append_coordinator_record_write
  write_status c type shards = elim (Option-cases c.log) [
    | inl e ↦ inr (ground (arith, e))
    | inr (l, e) ↦ ground (
      arith,
      e,
      append_write_status l
          (record {
            type = type;
            txn_id = t;
            timestamp_us = (O.system_clock_us c.world).1;
            shards = shards;
          })
          (O.write_log (O.system_clock_us c.world).0).1,
    )
  ]

  pub sync_status :
      (c : Coordinator O)
      → ((flush_coordinator_log O c).1 ≡ ok) ⊎ ((flush_coordinator_log O c).1 ≡ io_error)
  unfolding flush_coordinator_log
  sync_status c = elim (Option-cases c.log) [
    | inl e ↦ inr (ground (arith, e))
    | inr (l, e) ↦ ground (arith, e, flush_status l (O.sync_log c.world).1)
  ]

  abbrev Uncommitted : (ℕ → ℕ → ShardTxn) → Type 0
  Uncommitted v = (s : ℕ) → v s t ≢ ShardTxn.committed

  abbrev HeldAt : List ℕ → (ℕ → ℕ → ShardTxn) → Type 0
  HeldAt parts v = All (λ s. IsHeld (v s t)) parts

  abbrev CommittedAt : List ℕ → (ℕ → ℕ → ShardTxn) → Type 0
  CommittedAt parts v = All (λ s. v s t ≡ ShardTxn.committed) parts

  abbrev Ends : List ℕ → Coordinator O × Status → Type 0
  Ends parts r = Outcome parts r.0.world r.1

  -- The two branches after a status of the log.
  log_branches :
      (parts : List ℕ) (st : Status) (x y : Coordinator O × Status)
      → (st ≡ ok) ⊎ (st ≡ io_error)
      → Ends parts x
      → ((st ≡ io_error) → Ends parts y)
      → Ends parts (if is_ok st then x else y)
  log_branches parts st x y (inl e) hx hy =
      subst (λ s. Ends parts (if is_ok s then x else y)) (sym e) hx
  log_branches parts st x y (inr e) hx hy =
      subst (λ s. Ends parts (if is_ok s then x else y)) (sym e) (hy e)

  branches :
      (parts : List ℕ) (b : Bool) (x y : Coordinator O × Status)
      → ((b ≡ true) → Ends parts x)
      → ((b ≡ false) → Ends parts y)
      → Ends parts (if b then x else y)
  branches parts true x y hx hy = hx refl
  branches parts false x y hx hy = hy refl

  failed :
      (parts : List ℕ) (c : Coordinator O) (st : Status)
      → NothingCommitted O S t c.world ⊎ AllHeld O S t parts c.world
      → (st ≡ io_error)
      → Ends parts (c, st)
  failed parts c st h e = subst (Outcome parts c.world) (sym e) (fails h)

  -- The last flush.
  finished :
      (parts : List ℕ) (c : Coordinator O)
      → AllCommitted O S t parts c.world
      → Ends parts (flush_coordinator_log O c)
  finished parts c h =
      let h' : AllCommitted O S t parts (flush_coordinator_log O c).0.world =
        flush-Keeps O S (CommittedAt parts) c h in
      let held : AllHeld O S t parts (flush_coordinator_log O c).0.world =
        All-map (λ s. S.view (flush_coordinator_log O c).0.world s t ≡ ShardTxn.committed)
          (λ s. IsHeld (S.view (flush_coordinator_log O c).0.world s t)) (λ s e. inr e) parts h' in
      elim (sync_status c) [
        | inl e ↦ subst (Outcome parts (flush_coordinator_log O c).0.world) (sym e) (commits h')
        | inr e ↦
            failed parts (flush_coordinator_log O c).0 (flush_coordinator_log O c).1 (inr held) e
      ]

  abort_branch_lem :
      (c : Coordinator O) (parts : List ℕ)
      → NothingCommitted O S t c.world
      → Ends parts (abort_branch O c t parts)
  unfolding abort_branch
  abort_branch_lem c parts h =
      let c₁ : Coordinator O = (append_coordinator_record_write O c aborting t []).0 in
      let c₂ : Coordinator O = abort_all O c₁ t parts in
      let c₃ : Coordinator O = (append_coordinator_record_write O c₂ aborted t []).0 in
      let c₄ : Coordinator O = (flush_coordinator_log O c₃).0 in
      let h₄ : NothingCommitted O S t c₄.world = flush-Keeps O S Uncommitted c₃ (
        append_write-Keeps O S Uncommitted c₂ aborted t [] (
          abort_all-NothingCommitted O S t c₁ parts
            (append_write-Keeps O S Uncommitted c aborting t [] h))) in
      log_branches parts (flush_coordinator_log O c₃).1 _ _ (sync_status c₃) (refuses h₄)
        (failed parts c₄ (flush_coordinator_log O c₃).1 (inl h₄))

  commit_branch_lem :
      (c : Coordinator O) (ts : ℕ) (parts : List ℕ)
      → AllHeld O S t parts c.world
      → Ends parts (commit_branch O c t ts parts)
  unfolding commit_branch
  commit_branch_lem c ts parts h =
      let c₁ : Coordinator O = (append_coordinator_record_write O c committing t []).0 in
      let c₂ : Coordinator O = (commit_all O c₁ t ts parts).0 in
      let c₃ : Coordinator O = (append_coordinator_record_write O c₂ committed t []).0 in
      let c₄ : Coordinator O = (flush_coordinator_log O c₃).0 in
      let s₃ : Status = (append_coordinator_record_write O c₂ committed t []).1 in
      let h₁ : AllHeld O S t parts c₁.world =
        append_write-Keeps O S (HeldAt parts) c committing t [] h in
      let h₂ : AllHeld O S t parts c₂.world = commit_all-AllHeld O S t c₁ ts parts parts h₁ in
      let h₃ : AllHeld O S t parts c₃.world =
        append_write-Keeps O S (HeldAt parts) c₂ committed t [] h₂ in
      let h₄ : AllHeld O S t parts c₄.world = flush-Keeps O S (HeldAt parts) c₃ h₃ in
      log_branches parts (append_coordinator_record_write O c committing t []).1 _ _
        (write_status c committing [])
        (branches parts (commit_all O c₁ t ts parts).1 _ _
          (λ done.
            let k₃ : AllCommitted O S t parts c₃.world =
              append_write-Keeps O S (CommittedAt parts) c₂ committed t []
                (commit_all-AllCommitted O S t c₁ ts parts done) in
            log_branches parts s₃ _ _ (write_status c₂ committed []) (finished parts c₃ k₃)
              (failed parts c₃ s₃ (inr h₃)))
          (λ part. fails (inr h₂)))
        (failed parts c₁ _ (inr h₁))

  two_phase_commit_lem :
      (c : Coordinator O) (parts : List ℕ) (ts : ℕ)
      → NothingCommitted O S t c.world
      → Ends parts (two_phase_commit O c t parts ts)
  unfolding two_phase_commit
  two_phase_commit_lem c parts ts h =
      let c₁ : Coordinator O = (append_coordinator_record_write O c preparing t parts).0 in
      let c₂ : Coordinator O = (flush_coordinator_log O c₁).0 in
      let c₃ : Coordinator O = (prepare_all O c₂ t ts parts).0 in
      let h₁ : NothingCommitted O S t c₁.world =
        append_write-Keeps O S Uncommitted c preparing t parts h in
      let h₂ : NothingCommitted O S t c₂.world = flush-Keeps O S Uncommitted c₁ h₁ in
      log_branches parts (append_coordinator_record_write O c preparing t parts).1 _ _
        (write_status c preparing parts)
        (log_branches parts (flush_coordinator_log O c₁).1 _ _ (sync_status c₁)
          (branches parts (prepare_all O c₂ t ts parts).1 _ _
            (λ all. commit_branch_lem c₃ ts parts (prepare_all-AllHeld O S t c₂ ts parts all))
            (λ no. abort_branch_lem c₃ parts (prepare_all-NothingCommitted O S t c₂ ts parts h₂)))
          (failed parts c₂ _ (inl h₂)))
        (failed parts c₁ _ (inl h₁))

  single_shard_commit_lem :
      (c : Coordinator O) (sid ts : ℕ)
      → NothingCommitted O S t c.world
      → Ends (sid ∷ []) (single_shard_commit O c t sid ts)
  unfolding single_shard_commit
  single_shard_commit_lem c sid ts h =
      let parts : List ℕ = sid ∷ [] in
      let c₁ : Coordinator O = (append_coordinator_record_write O c preparing t parts).0 in
      let c₂ : Coordinator O = (flush_coordinator_log O c₁).0 in
      let c₃ : Coordinator O = (prepare_on_shard O c₂ sid t ts).0 in
      let h₁ : NothingCommitted O S t c₁.world =
        append_write-Keeps O S Uncommitted c preparing t parts h in
      let h₂ : NothingCommitted O S t c₂.world = flush-Keeps O S Uncommitted c₁ h₁ in
      let h₃ : NothingCommitted O S t c₃.world =
        prepare_on_shard-NothingCommitted O S t c₂ sid ts h₂ in
      log_branches parts (append_coordinator_record_write O c preparing t parts).1 _ _
        (write_status c preparing parts)
        (log_branches parts (flush_coordinator_log O c₁).1 _ _ (sync_status c₁)
          (branches parts (prepare_on_shard O c₂ sid t ts).1.0 _ _
            (λ sent.
              branches parts (prepare_on_shard O c₂ sid t ts).1.1.vote_commit _ _
                (λ vote.
                  commit_branch_lem c₃ ts parts
                    (inl (prepare_on_shard_vote O S t c₂ sid ts vote), tt))
                (λ no. abort_branch_lem c₃ parts h₃))
            (λ unsent. fails (inl h₃)))
          (failed parts c₂ _ (inl h₂)))
        (failed parts c₁ _ (inl h₁))

  pub commit_parts_lem :
      (c : Coordinator O) (parts : List ℕ) (ts : ℕ)
      → NothingCommitted O S t c.world
      → Ends parts (commit_parts O c t parts ts)
  unfolding commit_parts
  commit_parts_lem c [] ts h = commits tt
  commit_parts_lem c (sid ∷ []) ts h = single_shard_commit_lem c sid ts h
  commit_parts_lem c (sid ∷ sid' ∷ sids) ts h = two_phase_commit_lem c (sid ∷ sid' ∷ sids) ts h
