-- ===== src/Wal/Group.antt =====
-- `DurableSyncRegistry` of src/txn/group_commit.cpp: syncs that wait for a batch. Each definition is one
-- critical section of `QueueSync` or of the worker; the sections interleave in Wal.Waits.
use trans_db.Prelude.{
  ℕ, ◌+◌, ◌%◌, Bool, true, Option, none, some, List, [], ◌∷◌, ◌++◌, ltb, ◌==◌, if◌then◌else◌,
  Status, ok, is_ok,
}
use trans_db.Bytes.{u64_mod}

-- `GroupCommitConfig`
pub record GroupCommitConfig : Type 0 where
  pub enabled : Bool
  pub window_us : ℕ
  pub batch_size : ℕ

-- `PendingSync`; `flush` says which call has queued it, and so which callback it has.
pub record PendingSync : Type 0 where
  pub key : ℕ
  pub flush : ℕ

-- `batch` is what the worker has taken and not yet done with.
pub record Registry : Type 0 where
  pub synced_generation : ℕ
  pub last_status : Status
  pub pending_syncs : List PendingSync
  pub batch : Option (List PendingSync)

-- Whether `QueueSync` runs the callback at once.
unfoldable pub runs_at_once : GroupCommitConfig → Bool
runs_at_once cfg = if cfg.enabled then cfg.window_us == 0 else true

-- The first section of `QueueSync`, with `wait_generation`.
unfoldable pub queue : Registry → PendingSync → Registry × ℕ
queue r p = (record r { pending_syncs = r.pending_syncs ++ (p ∷ []) }, r.synced_generation)

-- The wait at the end of `QueueSync`: what it returns, once it does.
unfoldable pub woken : Registry → ℕ → Option Status
woken r wait_generation =
    if ltb wait_generation r.synced_generation then some r.last_status else none

-- The worker takes what is pending, if it has nothing in hand; with nothing pending it goes on waiting.
unfoldable pub take_batch : Registry → Registry
take_batch r = elim (r.batch) [
  | some b ↦ r
  | none ↦ elim (r.pending_syncs) [
    | [] ↦ r
    | p ∷ ps ↦ record r { pending_syncs = []; batch = some (p ∷ ps) }
  ]
]

-- `unique_syncs[item.key] = item.flush`; the map is a list, in the order in which it is to be visited.
unfoldable pub set_sync : PendingSync → List PendingSync → List PendingSync
set_sync p [] = p ∷ []
set_sync p (q ∷ qs) = let rest = set_sync p qs in if p.key == q.key then p ∷ qs else q ∷ rest

unfoldable pub unique_syncs : List PendingSync → List PendingSync → List PendingSync
unique_syncs found [] = found
unique_syncs found (p ∷ ps) = unique_syncs (set_sync p found) ps

-- The callbacks run one after the other; the last failure is kept.
unfoldable pub run_syncs : (PendingSync → Status) → Status → List PendingSync → Status
run_syncs answer merged [] = merged
run_syncs answer merged (p ∷ ps) =
    run_syncs answer (if is_ok (answer p) then merged else answer p) ps

-- The end of a round of the worker.
unfoldable pub finish_batch : (PendingSync → Status) → Registry → Registry
finish_batch answer r = elim (r.batch) [
  | none ↦ r
  | some b ↦ record r {
    batch = none;
    last_status = run_syncs answer ok (unique_syncs [] b);
    synced_generation = (r.synced_generation + 1) % u64_mod;
  }
]
