-- ===== src/Tests/Locking.antt =====
-- Runs of the theorems on the lock manager, src/txn/lock_manager.cpp.
use trans_db.Prelude.{ℕ, ◌≡◌, ◌≢◌, refl, ok, [], ◌∷◌, arith}
use trans_db.Bytes.{Bytes}
use trans_db.Locks.{LockManager, acquire, release, release_all, entry, wake, done, blocked}
use trans_db.Locks.Invariant.{count_key}
use trans_db.Locks.Release.{release_all_frees, release_serves_first}
use trans_db.Locks.Running.{start, Running, at_start, in_table, take_keys}
use trans_db.Locks.Steps.{acquires, takes_keys, Reach, here, next, Reach-Inv, mutual_exclusion}

abbrev row : Bytes
row = 0 ∷ 0 ∷ 0 ∷ 1 ∷ 49 ∷ []

-- Transaction 1 holds the row.
abbrev held : LockManager
held = (acquire start row 1).0

held-Reach : Reach (in_table at_start held)
held-Reach = next here (acquires row 1 (λ e. cc) refl (omega arith))

-- Transactions 2 and 3 wait for it.
abbrev crowded : LockManager
crowded = (acquire (acquire held row 2).0 row 3).0

crowded-Reach : Reach (in_table at_start crowded)
unfolding acquire
crowded-Reach =
    next (next held-Reach (acquires row 2 (λ e. omega (arith, e)) refl (omega arith)))
      (acquires row 3 (λ e. omega (arith, e)) refl (omega arith))

-- In the middle of `ReleaseAll`.
abbrev halfway : Running
halfway = take_keys (in_table at_start held) 1

halfway-Reach : Reach halfway
halfway-Reach = next held-Reach (takes_keys 1 (λ e. cc) refl)

mutual_exclusion_example : ◌≡◌ {A = ℕ} 1 1
unfolding acquire count_key
mutual_exclusion_example =
    mutual_exclusion halfway row 1 1 halfway-Reach (λ e. cc) (λ e. cc) (omega arith) (omega arith)

release_all_frees_example :
    ((entry (release_all held 1) row).owner ≢ 1) × ((release_all held 1).txn_locks 1 ≡ [])
unfolding acquire
release_all_frees_example = release_all_frees held 1 row (λ e. cc) (Reach-Inv held-Reach) refl

release_serves_first_example :
    let woken = wake (release crowded row 1) row 2 in
    (woken.1 ≡ done ok)
    × ((entry woken.0 row).wait_queue ≡ 3 ∷ [])
    × ((w : ℕ) → w ≢ 2 → (wake (release crowded row 1) row w).1 ≡ blocked)
unfolding acquire count_key
release_serves_first_example =
    release_serves_first crowded row 1 2 (3 ∷ []) (Reach-Inv crowded-Reach) (λ e. cc) refl refl refl
