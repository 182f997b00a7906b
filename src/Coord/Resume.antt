-- ===== src/Coord/Resume.antt =====
-- `Recover` of src/coordinator/coordinator.cpp, one transaction of the log: a transaction that the log
-- leaves open is brought to one end on all its shards.
use trans_db.Prelude.{
  ℕ, ◌≡◌, ◌≢◌, refl, sym, subst, Bool, true, false, [], All, ◌⊎◌, inl, inr, Status, ok, io_error,
  is_ok, arith, if◌then◌else◌,
}
use trans_db.Coord.Log.{CoordinatorLogRecordType, committing, committed, aborting, aborted}
use trans_db.Coord.Outside.{Outside}
use trans_db.Coord.Shards.{Coordinator}
use trans_db.Coord.Calls.{now, append_coordinator_record_write, append_coordinator_record}
use trans_db.Coord.Commit.{commit_all, abort_all}
use trans_db.Coord.Recover.{
  TxnRecoveryState, Answers, decides_commit, is_open, ask_shards, drive_commit, drive_abort,
  finish_commit, finish_abort, recover_txn,
}
use trans_db.Coord.Participants.{ShardTxn, Participants, Truthful, IsHeld}
use trans_db.Coord.Steps.{NothingCommitted, AllHeld, AllCommitted, append_record-Keeps}
use trans_db.Coord.Phases.{commit_all-AllHeld, commit_all-AllCommitted, abort_all-NothingCommitted}
use trans_db.Coord.Outcomes.{write_status, sync_status}
use trans_db.Coord.Answers.{ask_shards-Keeps, ask_shards-AllHeld, ask_shards_committed}

module _ (O : Outside) (S : Participants O) (t : ℕ) (st : TxnRecoveryState) where
  -- How the recovery of a transaction may end: committed on all its shards; on none, where no decision
  -- to commit is in the log; or, with an error, still to be brought to either end.
  pub data Recovered (w : O.World) : Status → Type 0 where
    rolled_forward : AllCommitted O S t st.shards w → Recovered w ok
    rolled_back : st.saw_committing ≡ false → NothingCommitted O S t w → Recovered w ok
    unfinished : NothingCommitted O S t w ⊎ AllHeld O S t st.shards w → Recovered w io_error

  abbrev Ends : Coordinator O × Status → Type 0
  Ends r = Recovered r.0.world r.1

  record_status :
      (c : Coordinator O) (type : CoordinatorLogRecordType)
      → ((append_coordinator_record O c type t []).1 ≡ ok)
        ⊎ ((append_coordinator_record O c type t []).1 ≡ io_error)
  unfolding append_coordinator_record
  record_status c type = ground (
    arith,
    write_status O S t c type [],
    sync_status O S t (append_coordinator_record_write O c type t []).0,
  )

  -- The two branches after a record.
  branches :
      (s : Status) (x y : Coordinator O × Status)
      → (s ≡ ok) ⊎ (s ≡ io_error)
      → Ends x
      → ((s ≡ io_error) → Ends y)
      → Ends (if is_ok s then x else y)
  branches s x y (inl e) hx hy = subst (λ u. Ends (if is_ok u then x else y)) (sym e) hx
  branches s x y (inr e) hx hy = subst (λ u. Ends (if is_ok u then x else y)) (sym e) (hy e)

  cases :
      (b : Bool) (x y : Coordinator O × Status)
      → ((b ≡ true) → Ends x)
      → ((b ≡ false) → Ends y)
      → Ends (if b then x else y)
  cases true x y hx hy = hx refl
  cases false x y hx hy = hy refl

  driven :
      (b : Bool) (c : Coordinator O) (x : Coordinator O × Status)
      → ((b ≡ true) → Ends x)
      → ((b ≡ false) → Ends (c, io_error))
      → Ends (if is_ok (if b then ok else io_error) then x else (c, if b then ok else io_error))
  driven true c x hx hy = hx refl
  driven false c x hx hy = hy refl

  failed :
      (c : Coordinator O) (s : Status)
      → NothingCommitted O S t c.world ⊎ AllHeld O S t st.shards c.world
      → s ≡ io_error
      → Ends (c, s)
  failed c s h e = subst (Recovered c.world) (sym e) (unfinished h)

  -- The last record of a transaction, after which it has ended.
  recorded :
      (c : Coordinator O) (type : CoordinatorLogRecordType)
      → Ends ((append_coordinator_record O c type t []).0, ok)
      → NothingCommitted O S t (append_coordinator_record O c type t []).0.world
        ⊎ AllHeld O S t st.shards (append_coordinator_record O c type t []).0.world
      → Ends (append_coordinator_record O c type t [])
  recorded c type h k = elim (record_status c type) [
    | inl e ↦ subst (Recovered (append_coordinator_record O c type t []).0.world) (sym e) h
    | inr e ↦
        failed (append_coordinator_record O c type t []).0
          (append_coordinator_record O c type t []).1 k e
  ]

  abbrev HeldAt : (ℕ → ℕ → ShardTxn) → Type 0
  HeldAt v = All (λ s. IsHeld (v s t)) st.shards

  abbrev CommittedAt : (ℕ → ℕ → ShardTxn) → Type 0
  CommittedAt v = All (λ s. v s t ≡ ShardTxn.committed) st.shards

  abbrev Uncommitted : (ℕ → ℕ → ShardTxn) → Type 0
  Uncommitted v = (s : ℕ) → v s t ≢ ShardTxn.committed

  finish_commit_lem :
      (c : Coordinator O) → AllHeld O S t st.shards c.world → Ends (finish_commit O c t st.shards)
  unfolding finish_commit drive_commit now
  finish_commit_lem c h =
      let c₁ : Coordinator O = (append_coordinator_record O c committing t []).0 in
      let n : Coordinator O = (now O c₁).0 in
      let ts : ℕ = (now O c₁).1 in
      let c₂ : Coordinator O = (commit_all O n t ts st.shards).0 in
      let h₁ : AllHeld O S t st.shards c₁.world =
        append_record-Keeps O S HeldAt c committing t [] h in
      let h₂ : AllHeld O S t st.shards c₂.world =
        commit_all-AllHeld O S t n ts st.shards st.shards h₁ in
      branches (append_coordinator_record O c committing t []).1 _ _ (record_status c committing)
        (driven (commit_all O n t ts st.shards).1 c₂ _
          (λ done.
            recorded c₂ committed
              (rolled_forward (
                append_record-Keeps O S CommittedAt c₂ committed t []
                  (commit_all-AllCommitted O S t n ts st.shards done)))
              (inr (append_record-Keeps O S HeldAt c₂ committed t [] h₂)))
          (λ part. unfinished (inr h₂)))
        (failed c₁ _ (inr h₁))

  finish_abort_lem :
      (c : Coordinator O)
      → st.saw_committing ≡ false
      → NothingCommitted O S t c.world
      → Ends (finish_abort O c t st.shards)
  unfolding finish_abort drive_abort
  finish_abort_lem c u h =
      let c₁ : Coordinator O = (append_coordinator_record O c aborting t []).0 in
      let c₂ : Coordinator O = abort_all O c₁ t st.shards in
      let c₃ : Coordinator O = (append_coordinator_record O c₂ aborted t []).0 in
      let h₁ : NothingCommitted O S t c₁.world =
        append_record-Keeps O S Uncommitted c aborting t [] h in
      let h₃ : NothingCommitted O S t c₃.world =
        append_record-Keeps O S Uncommitted c₂ aborted t []
          (abort_all-NothingCommitted O S t c₁ st.shards h₁) in
      branches (append_coordinator_record O c aborting t []).1 _ _ (record_status c aborting)
        (recorded c₂ aborted (rolled_back u h₃) (inl h₃)) (failed c₁ _ (inl h₁))

  -- With shards that meet the laws of `Participants`, and whose answers to a query meet those of
  -- `Truthful`, so that they may always say that they do not know: take a transaction that the
  -- coordinator's log leaves open, whose participants all hold it if the log says `COMMITTING`,
  -- which no shard has committed if it does not, and which no shard has aborted if the log does
  -- not say `ABORTING`. When recovery reports success, all participants have committed, or none
  -- has and the log did not say `COMMITTING`; when it fails, with an I/O error, none has committed
  -- or all still hold it.
  pub recover_txn-Recovered :
      Truthful O S
      → (c : Coordinator O) → is_open st ≡ true
      → ((st.saw_committing ≡ true) → AllHeld O S t st.shards c.world)
      → ((st.saw_committing ≡ false) → NothingCommitted O S t c.world)
      → ((st.saw_aborting ≡ false) → (s : ℕ) → S.view c.world s t ≢ ShardTxn.aborted)
      → Recovered (recover_txn O c t st).0.world (recover_txn O c t st).1
  unfolding recover_txn decides_commit
  recover_txn-Recovered T c o held clear live =
      let start : Answers = record {
        any_aborted = false;
        any_committed = false;
        all_prepared = true;
      } in
      let c₁ : Coordinator O = (ask_shards O c t st.shards start).0 in
      let a : Answers = (ask_shards O c t st.shards start).1 in
      cases (is_open st) _ _
        (λ k.
          cases st.saw_committing _ _ (λ k. finish_commit_lem c (held k))
            (λ u.
              cases st.saw_aborting _ _ (λ k. finish_abort_lem c u (clear u))
                (λ w.
                  cases (decides_commit a) _ _
                    (λ d. finish_commit_lem c₁ (
                      ask_shards-AllHeld O S T t c st.shards start (live w) (
                        ground
                          (arith, d, ask_shards_committed O S T t c st.shards start (clear u)))))
                    (λ d.
                      finish_abort_lem c₁ u
                        (ask_shards-Keeps O S T t Uncommitted c st.shards start (clear u))))))
        (λ k. absurd (ground (arith, o, k)))
