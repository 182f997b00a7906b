-- ===== src/Coord/Phases.antt =====
-- What the rounds of a commit do to the shards, in src/coordinator/coordinator.cpp: a round of `Prepare` or
-- `Abort` commits nothing, what is held stays held, and a round that succeeds at every shard leaves
-- every shard prepared or committed.
use trans_db.Prelude.{ℕ, ◌≡◌, true, List, [], ◌∷◌, All-map, arith, inl}
use trans_db.Coord.Outside.{Outside}
use trans_db.Coord.Shards.{Coordinator, prepare_on_shard, commit_on_shard, abort_on_shard}
use trans_db.Coord.Commit.{prepare_all, commit_all, abort_all}
use trans_db.Coord.Participants.{committed, Participants, IsHeld}
use trans_db.Coord.Steps.{
  NothingCommitted, AllHeld, AllCommitted, prepare_on_shard-NothingCommitted,
  prepare_on_shard-IsHeld, prepare_on_shard_vote, commit_on_shard-IsHeld, commit_on_shard_final,
  commit_on_shard_done, abort_on_shard-NothingCommitted,
}

module _ (O : Outside) (S : Participants O) (t : ℕ) where
  pub prepare_all-NothingCommitted :
      (c : Coordinator O) (ts : ℕ) (sids : List ℕ)
      → NothingCommitted O S t c.world
      → NothingCommitted O S t (prepare_all O c t ts sids).0.world
  unfolding prepare_all
  prepare_all-NothingCommitted c ts [] h = h
  prepare_all-NothingCommitted c ts (sid ∷ sids) h =
      prepare_all-NothingCommitted (prepare_on_shard O c sid t ts).0 ts sids
        (prepare_on_shard-NothingCommitted O S t c sid ts h)

  prepare_all-IsHeld :
      (c : Coordinator O) (ts : ℕ) (sids : List ℕ) (s : ℕ)
      → IsHeld (S.view c.world s t)
      → IsHeld (S.view (prepare_all O c t ts sids).0.world s t)
  unfolding prepare_all
  prepare_all-IsHeld c ts [] s h = h
  prepare_all-IsHeld c ts (sid ∷ sids) s h =
      prepare_all-IsHeld (prepare_on_shard O c sid t ts).0 ts sids s
        (prepare_on_shard-IsHeld O S t c sid ts s h)

  -- When all vote to commit, all are prepared.
  pub prepare_all-AllHeld :
      (c : Coordinator O) (ts : ℕ) (sids : List ℕ)
      → (prepare_all O c t ts sids).1 ≡ true
      → AllHeld O S t sids (prepare_all O c t ts sids).0.world
  unfolding prepare_all
  prepare_all-AllHeld c ts [] h = tt
  prepare_all-AllHeld c ts (sid ∷ sids) h =
      let c₁ : Coordinator O = (prepare_on_shard O c sid t ts).0 in
      (
        prepare_all-IsHeld c₁ ts sids sid
            (inl (prepare_on_shard_vote O S t c sid ts (ground (arith, h)))),
        prepare_all-AllHeld c₁ ts sids (ground (arith, h)),
      )

  commit_all-IsHeld :
      (c : Coordinator O) (ts : ℕ) (sids : List ℕ) (s : ℕ)
      → IsHeld (S.view c.world s t)
      → IsHeld (S.view (commit_all O c t ts sids).0.world s t)
  unfolding commit_all
  commit_all-IsHeld c ts [] s h = h
  commit_all-IsHeld c ts (sid ∷ sids) s h =
      commit_all-IsHeld (commit_on_shard O c sid t ts).0 ts sids s
        (commit_on_shard-IsHeld O S t c sid ts s h)

  pub commit_all-AllHeld :
      (c : Coordinator O) (ts : ℕ) (sids sids' : List ℕ)
      → AllHeld O S t sids' c.world
      → AllHeld O S t sids' (commit_all O c t ts sids).0.world
  commit_all-AllHeld c ts sids sids' h =
      All-map (λ s. IsHeld (S.view c.world s t))
        (λ s. IsHeld (S.view (commit_all O c t ts sids).0.world s t)) (commit_all-IsHeld c ts sids)
        sids' h

  commit_all_final :
      (c : Coordinator O) (ts : ℕ) (sids : List ℕ) (s : ℕ)
      → S.view c.world s t ≡ committed
      → S.view (commit_all O c t ts sids).0.world s t ≡ committed
  unfolding commit_all
  commit_all_final c ts [] s h = h
  commit_all_final c ts (sid ∷ sids) s h =
      commit_all_final (commit_on_shard O c sid t ts).0 ts sids s
        (commit_on_shard_final O S t c sid ts s h)

  -- When all say so, all have committed.
  pub commit_all-AllCommitted :
      (c : Coordinator O) (ts : ℕ) (sids : List ℕ)
      → (commit_all O c t ts sids).1 ≡ true
      → AllCommitted O S t sids (commit_all O c t ts sids).0.world
  unfolding commit_all
  commit_all-AllCommitted c ts [] h = tt
  commit_all-AllCommitted c ts (sid ∷ sids) h =
      let c₁ : Coordinator O = (commit_on_shard O c sid t ts).0 in
      (
        commit_all_final c₁ ts sids sid (commit_on_shard_done O S t c sid ts (ground (arith, h))),
        commit_all-AllCommitted c₁ ts sids (ground (arith, h)),
      )

  pub abort_all-NothingCommitted :
      (c : Coordinator O) (sids : List ℕ)
      → NothingCommitted O S t c.world
      → NothingCommitted O S t (abort_all O c t sids).world
  unfolding abort_all
  abort_all-NothingCommitted c [] h = h
  abort_all-NothingCommitted c (sid ∷ sids) h =
      abort_all-NothingCommitted (abort_on_shard O c sid t).0 sids
        (abort_on_shard-NothingCommitted O S t c sid h)
