-- ===== src/Locks/Steps.antt =====
-- Any interleaving of calls of src/txn/lock_manager.cpp: mutual exclusion in every state that the lock
-- manager reaches. `ReleaseAll` is two critical sections here, between which others run.
use trans_db.Prelude.{ℕ, ◌+◌, ◌<◌, ◌≡◌, ◌≢◌, refl, some, none, [], ◌++◌, arith}
use trans_db.Bytes.{Bytes, u32_mod}
use trans_db.Locks.{entry, acquire, wake, time_out, release}
use trans_db.Locks.Invariant.{count_key, count_id, Inv}
use trans_db.Locks.Running.{
  start, Running, at_start, in_table, take_keys, release_taken, relisted, acquires-Inv, wakes-Inv,
  times_out-Inv, releases-Inv, takes_keys-Inv, releases_taken-Inv,
}

-- One critical section of one thread. A transaction is not 0, runs one `Acquire` at a time and one
-- `ReleaseAll` at a time, and does not hold a lock 2^32 - 1 times.
pub data Step (s : Running) : Running → Type 0 where
  acquires :
      (lk : Bytes) (t : ℕ)
      → t ≢ 0
      → s.table.waiting t ≡ none
      → (entry s.table lk).hold_count + 1 < u32_mod
      → Step s (in_table s (acquire s.table lk t).0)
  wakes :
      (lk : Bytes) (t : ℕ)
      → t ≢ 0
      → s.table.waiting t ≡ some lk
      → Step s (in_table s (wake s.table lk t).0)
  times_out :
      (lk : Bytes) (t : ℕ)
      → t ≢ 0
      → s.table.waiting t ≡ some lk
      → Step s (in_table s (time_out s.table lk t).0)
  releases : (lk : Bytes) (t : ℕ) → t ≢ 0 → Step s (in_table s (release s.table lk t))
  takes_keys : (t : ℕ) → t ≢ 0 → s.releasing t ≡ [] → Step s (take_keys s t)
  releases_taken : (t : ℕ) → t ≢ 0 → Step s (release_taken s t)

pub data Reach : Running → Type 0 where
  here : Reach at_start
  next : {s s' : Running} → Reach s → Step s s' → Reach s'

Step-Inv : {s s' : Running} → Step s s' → Inv (relisted s) → Inv (relisted s')
Step-Inv {s} (acquires lk t real idle room) v = acquires-Inv s lk t real v idle room
Step-Inv {s} (wakes lk t real waits) v = wakes-Inv s lk t real v waits
Step-Inv {s} (times_out lk t real waits) v = times_out-Inv s lk t real v waits
Step-Inv {s} (releases lk t real) v = releases-Inv s t real v lk
Step-Inv {s} (takes_keys t real none_yet) v = takes_keys-Inv s t real v none_yet
Step-Inv {s} (releases_taken t real) v = releases_taken-Inv s t real v

start-Inv : Inv start
unfolding count_key count_id
start-Inv = record {
  free = λ k e. (refl, refl);
  taken = λ k h. absurd (h refl);
  held = λ t k h. ground arith;
  queued = λ t k. ground arith;
  nobody = refl;
}

-- Every state that is reached by any interleaving of the critical sections meets the invariant, with the
-- keys that are being released counted as listed: a free key has no hold and no waiter, an owner has a
-- hold, the holds are counted by the owner's list of keys, and the queue holds exactly those who wait
-- and are not served.
pub Reach-Inv : {s : Running} → Reach s → Inv (relisted s)
Reach-Inv here = start-Inv
Reach-Inv (next r step) = Step-Inv step (Reach-Inv r)

-- In every state that is reached by any interleaving of the critical sections, where no
-- transaction is 0, runs two calls of `Acquire` or two of `ReleaseAll` at once or holds a key 2^32
-- - 1 times, two transactions that both list a key among their locks, or are still to release it
-- in `ReleaseAll`, are one.
pub mutual_exclusion :
    (s : Running) (lk : Bytes) (t u : ℕ)
    → Reach s
    → t ≢ 0
    → u ≢ 0
    → 0 < count_key lk (s.releasing t ++ s.table.txn_locks t)
    → 0 < count_key lk (s.releasing u ++ s.table.txn_locks u)
    → t ≡ u
mutual_exclusion s lk t u r ht hu ct cu =
    let v : Inv (relisted s) = Reach-Inv r in ground (arith, v.held t lk, v.held u lk)
