-- ===== src/Locks/Invariant.antt =====
-- What the lock table keeps true: hold counts, owners, wait queues and the per-transaction lists agree.
use trans_db.Prelude.{
  ℕ, ◌+◌, ◌-◌, ◌<◌, ◌≡◌, ◌≢◌, none, some, List, [], ◌∷◌, ◌++◌, ◌==◌, ◌=l=◌, if◌then◌else◌, arith,
  =l=_iff,
}
use trans_db.Bytes.{Bytes, u32_mod}
use trans_db.Locks.{LockManager, entry, acquire, wake, time_out, erase_id}

unfoldable pub count_key : Bytes → List Bytes → ℕ
count_key k [] = 0
count_key k (j ∷ ks) = (if j =l= k then 1 else 0) + count_key k ks

unfoldable pub count_id : ℕ → List ℕ → ℕ
count_id t [] = 0
count_id t (u ∷ q) = (if u == t then 1 else 0) + count_id t q

pub count_key-append :
    (k j : Bytes) (ks : List Bytes)
    → count_key k (ks ++ j ∷ []) ≡ count_key k ks + (if j =l= k then 1 else 0)
unfolding count_key
count_key-append k j [] = ground arith
count_key-append k j (i ∷ ks) = ground (arith, count_key-append k j ks)

pub count_id-append :
    (t u : ℕ) (q : List ℕ) → count_id t (q ++ u ∷ []) ≡ count_id t q + (if u == t then 1 else 0)
unfolding count_id
count_id-append t u [] = ground arith
count_id-append t u (v ∷ q) = ground (arith, count_id-append t u q)

pub count_id-erase :
    (t u : ℕ) (q : List ℕ) → count_id t (erase_id u q) ≡ count_id t q - (if u == t then 1 else 0)
unfolding count_id erase_id
count_id-erase t u [] = ground arith
count_id-erase t u (v ∷ q) = ground (arith, count_id-erase t u q)

abbrev pub waits_for : LockManager → ℕ → Bytes → ℕ
waits_for m t k = elim (m.waiting t) [ none ↦ 0 | some j ↦ if j =l= k then 1 else 0 ]

-- The holds that a transaction has on a key, and the waiters among them who have not woken yet.
abbrev pub holds : LockManager → ℕ → Bytes → ℕ
holds m t k = if (entry m k).owner == t then (entry m k).hold_count else 0

abbrev pub granted : LockManager → ℕ → Bytes → ℕ
granted m t k = if (entry m k).owner == t then waits_for m t k else 0

pub record Inv (m : LockManager) : Type 0 where
  pub free :
      (k : Bytes)
      → (entry m k).owner ≡ 0
      → ((entry m k).hold_count ≡ 0) × ((entry m k).wait_queue ≡ [])
  pub taken : (k : Bytes) → (entry m k).owner ≢ 0 → 0 < (entry m k).hold_count
  pub held : (t : ℕ) (k : Bytes) → t ≢ 0 → holds m t k ≡ count_key k (m.txn_locks t) + granted m t k
  pub queued :
      (t : ℕ) (k : Bytes) → count_id t (entry m k).wait_queue + granted m t k ≡ waits_for m t k
  pub nobody : m.waiting 0 ≡ none

module _ (m : LockManager) (lk : Bytes) (txn_id : ℕ) (real : txn_id ≢ 0) (v : Inv m) where
  -- A call by a transaction that is not waiting already.
  pub acquire-Inv :
      m.waiting txn_id ≡ none → (entry m lk).hold_count + 1 < u32_mod → Inv (acquire m lk txn_id).0
  unfolding acquire
  acquire-Inv idle room = record {
    free = λ k. ground (arith, =l=_iff lk k, v.free k, v.free lk);
    taken = λ k. ground (arith, =l=_iff lk k, v.taken k, v.taken lk);
    held = λ t k. ground (
      arith,
      =l=_iff lk k,
      v.held t k,
      v.held txn_id lk,
      v.free lk,
      count_key-append k lk (m.txn_locks txn_id),
    );
    queued = λ t k. ground (
      arith,
      =l=_iff lk k,
      v.queued t k,
      v.queued t lk,
      v.queued txn_id lk,
      v.free lk,
      count_id-append t txn_id (entry m lk).wait_queue,
    );
    nobody = ground (arith, v.nobody);
  }

  -- A waiting call keeps the invariant when it wakes, and when it times out.
  pub wake-Inv : m.waiting txn_id ≡ some lk → Inv (wake m lk txn_id).0
  unfolding wake
  wake-Inv waits = record {
    free = λ k. ground (arith, v.free k);
    taken = λ k. ground (arith, v.taken k);
    held = λ t k. ground (
      arith,
      =l=_iff lk k,
      v.held t k,
      v.held txn_id lk,
      count_key-append k lk (m.txn_locks txn_id),
    );
    queued = λ t k. ground (arith, =l=_iff lk k, v.queued t k, v.queued txn_id k);
    nobody = ground (arith, v.nobody);
  }

  pub time_out-Inv : m.waiting txn_id ≡ some lk → Inv (time_out m lk txn_id).0
  unfolding time_out
  time_out-Inv waits = record {
    free = λ k. ground (arith, =l=_iff lk k, v.free k, v.free lk);
    taken = λ k. ground (arith, =l=_iff lk k, v.taken k, v.taken lk);
    held = λ t k. ground (
      arith,
      =l=_iff lk k,
      v.held t k,
      v.held txn_id lk,
      v.taken lk,
      count_key-append k lk (m.txn_locks txn_id),
    );
    queued = λ t k. ground (
      arith,
      =l=_iff lk k,
      v.queued t k,
      v.queued t lk,
      v.queued txn_id lk,
      v.queued txn_id k,
      v.taken lk,
      count_id-erase t txn_id (entry m lk).wait_queue,
    );
    nobody = ground (arith, v.nobody);
  }
