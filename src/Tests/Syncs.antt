-- ===== src/Tests/Syncs.antt =====
-- Runs of the theorems on batched syncs, src/txn/group_commit.cpp.
use trans_db.Prelude.{◌≡◌, refl, true, none, some, [], ◌∷◌, ok, arith}
use trans_db.Wal.Group.{
  PendingSync, Registry, queue, woken, take_batch, finish_batch, run_syncs, unique_syncs,
}
use trans_db.Wal.Waits.{has, in_batch, here, next, takes, woken_after, woken_early}

abbrev mine : PendingSync
mine = record { key = 1; flush = 20 }

abbrev other : PendingSync
other = record { key = 2; flush = 10 }

abbrev idle : Registry
idle = record { synced_generation = 4; last_status = ok; pending_syncs = other ∷ []; batch = none }

abbrev busy : Registry
busy = record {
  synced_generation = 4;
  last_status = ok;
  pending_syncs = [];
  batch = some (other ∷ []);
}

-- The worker takes both syncs, and is not done with them.
woken_after_example : woken (take_batch (queue idle mine).0) (queue idle mine).1 ≡ none
unfolding has in_batch take_batch queue
woken_after_example =
    woken_after idle (take_batch (queue idle mine).0) mine refl refl (next here takes) refl

-- The other sync succeeds; this one is not tried.
woken_early_example :
    (woken (finish_batch (λ p. ok) (queue busy mine).0) (queue busy mine).1
      ≡ some (run_syncs (λ p. ok) ok (unique_syncs [] (other ∷ []))))
    × (has 20 (finish_batch (λ p. ok) (queue busy mine).0).pending_syncs ≡ true)
woken_early_example = woken_early busy (other ∷ []) mine (λ p. ok) refl (omega arith)
