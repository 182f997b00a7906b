-- ===== src/Coord/Participants.antt =====
-- The shards as the coordinator counts on them: what one call may do to a transaction there. These are
-- laws of the services behind gRPC, which the coordinator takes as given.
use trans_db.Prelude.{ℕ, ◌≡◌, ◌⊎◌, ◌≢◌, true, some, inl, inr, refl}
use trans_db.Coord.Outside.{
  Outside, Stub, PrepareResponse, CommitResponse, TxnStateResponse, TxnStateCode, txn_unknown,
  txn_in_flight, txn_prepared, txn_committed, txn_aborted,
}

-- A transaction on one shard.
pub data ShardTxn : Type 0 where
  running prepared committed aborted : ShardTxn

-- What a `Prepare` may do: nothing, prepare, or abort at once.
pub data PrepareStep : ShardTxn → ShardTxn → Type 0 where
  stays : {v : ShardTxn} → PrepareStep v v
  prepares : PrepareStep running prepared
  refuses : PrepareStep running aborted

-- What a `Commit` may do.
pub data CommitStep : ShardTxn → ShardTxn → Type 0 where
  stays : {v : ShardTxn} → CommitStep v v
  commits : {v : ShardTxn} → CommitStep v committed

-- What an `Abort` may do: it does not undo a commit.
pub data AbortStep : ShardTxn → ShardTxn → Type 0 where
  stays : {v : ShardTxn} → AbortStep v v
  drops : AbortStep running aborted
  releases : AbortStep prepared aborted

-- `view w s t` is the transaction `t` on the shard `s`. The laws say what is true of every shard and
-- transaction after a call, and what an answer that agrees promises of its own.
pub record Participants (O : Outside) : Type 0 where
  pub view : O.World → ℕ → ℕ → ShardTxn
  pub prepare_step :
      (w : O.World) (s : ℕ) (stub : Stub) (t ts s' t' : ℕ)
      → PrepareStep (view w s' t') (view (O.prepare w s stub t ts).0 s' t')
  pub prepare_vote :
      (w : O.World) (s : ℕ) (stub : Stub) (t ts : ℕ) (r : PrepareResponse)
      → (O.prepare w s stub t ts).1 ≡ some r
      → r.vote_commit ≡ true
      → view (O.prepare w s stub t ts).0 s t ≡ prepared
  pub commit_step :
      (w : O.World) (s : ℕ) (stub : Stub) (t ts s' t' : ℕ)
      → CommitStep (view w s' t') (view (O.commit w s stub t ts).0 s' t')
  pub commit_done :
      (w : O.World) (s : ℕ) (stub : Stub) (t ts : ℕ) (r : CommitResponse)
      → (O.commit w s stub t ts).1 ≡ some r
      → r.success ≡ true
      → view (O.commit w s stub t ts).0 s t ≡ committed
  pub abort_step :
      (w : O.World) (s : ℕ) (stub : Stub) (t s' t' : ℕ)
      → AbortStep (view w s' t') (view (O.abort w s stub t).0 s' t')
  pub clock_quiet : (w : O.World) (s' t' : ℕ) → view (O.system_clock_us w).0 s' t' ≡ view w s' t'
  pub write_quiet : (w : O.World) (s' t' : ℕ) → view (O.write_log w).0 s' t' ≡ view w s' t'
  pub sync_quiet : (w : O.World) (s' t' : ℕ) → view (O.sync_log w).0 s' t' ≡ view w s' t'

-- Prepared or committed.
abbrev pub IsHeld : ShardTxn → Type 0
IsHeld v = (v ≡ prepared) ⊎ (v ≡ committed)

-- What an answer to a query says: only `TXN_PREPARED` and `TXN_COMMITTED` say something. A replica
-- keeps these states in memory, so that it may answer `TXN_UNKNOWN` of any transaction, and
-- `TXN_PREPARED` of one that was prepared and that the shard has aborted through another replica.
unfoldable pub IsAnswer : ShardTxn → TxnStateCode → Type 0
IsAnswer v txn_unknown = Unit
IsAnswer v txn_in_flight = Unit
IsAnswer v txn_prepared = IsHeld v ⊎ (v ≡ aborted)
IsAnswer v txn_committed = v ≡ committed
IsAnswer v txn_aborted = Unit

-- An answer says no more than that, and a query changes nothing.
pub record Truthful (O : Outside) (S : Participants O) : Type 0 where
  pub query_quiet :
      (w : O.World) (s : ℕ) (stub : Stub) (t s' t' : ℕ)
      → S.view (O.query w s stub t).0 s' t' ≡ S.view w s' t'
  pub query_answer :
      (w : O.World) (s : ℕ) (stub : Stub) (t : ℕ) (r : TxnStateResponse)
      → (O.query w s stub t).1 ≡ some r
      → r.success ≡ true
      → IsAnswer (S.view w s t) r.state

pub prepare-IsHeld : {v v' : ShardTxn} → PrepareStep v v' → IsHeld v → IsHeld v'
prepare-IsHeld stays h = h
prepare-IsHeld prepares h = inl refl
prepare-IsHeld refuses h = elim h [ inl e ↦ absurd cc | inr e ↦ absurd cc ]

pub commit-IsHeld : {v v' : ShardTxn} → CommitStep v v' → IsHeld v → IsHeld v'
commit-IsHeld stays h = h
commit-IsHeld commits h = inr refl

pub prepare_open : {v v' : ShardTxn} → PrepareStep v v' → v ≢ committed → v' ≢ committed
prepare_open stays h e = h e
prepare_open prepares h e = cc
prepare_open refuses h e = cc

pub abort_open : {v v' : ShardTxn} → AbortStep v v' → v ≢ committed → v' ≢ committed
abort_open stays h e = h e
abort_open drops h e = cc
abort_open releases h e = cc

pub commit_final : {v v' : ShardTxn} → CommitStep v v' → v ≡ committed → v' ≡ committed
commit_final stays h = h
commit_final commits h = refl
