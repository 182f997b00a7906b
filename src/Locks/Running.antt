-- ===== src/Locks/Running.antt =====
-- The two critical sections of `ReleaseAll` in src/txn/lock_manager.cpp, with others between them: each
-- section keeps the invariant, with the keys that are being released counted as listed.
use mathlib.Core.Path.{fun_ext}
use trans_db.Prelude.{
  ℕ, ◌+◌, ◌<◌, ◌≡◌, ◌≢◌, refl, sym, ap, ◌∙◌, none, some, List, [], ◌∷◌, ◌++◌, Bool, ◌==◌, ◌=l=◌,
  if◌then◌else◌, arith, append_assoc, append-nil, ==_refl, Option-cases, Bool-cases, inl, inr, true,
}
use trans_db.Bytes.{Bytes, u32_mod}
use trans_db.Locks.{
  LockManager, entry, acquire, wake, time_out, release, release_internal, release_owned,
  release_keys, release_all, set_held, erase_key, has_key,
}
use trans_db.Locks.Invariant.{count_key, Inv, acquire-Inv, wake-Inv, time_out-Inv}
use trans_db.Locks.Release.{
  Inv-ext, release_keys-Inv, release_internal-Inv, count_key-erase, txn_locks-release_keys,
  waiting-release_keys,
}

abbrev pub start : LockManager
start = record { locks = λ k. none; txn_locks = λ t. []; waiting = λ t. none }

-- The lock manager with, for each transaction, the keys that a call of `ReleaseAll` has taken from
-- `txn_locks_` and has not released yet: the local variable `keys`.
pub record Running : Type 0 where
  pub table : LockManager
  pub releasing : ℕ → List Bytes

abbrev pub at_start : Running
at_start = record { table = start; releasing = λ t. [] }

abbrev pub in_table : Running → LockManager → Running
in_table s m = record s { table = m }

-- The first section of `ReleaseAll`.
abbrev pub take_keys : Running → ℕ → Running
take_keys s t = record {
  table = set_held s.table t [];
  releasing = λ u. if t == u then s.table.txn_locks t else s.releasing u;
}

-- The second.
unfoldable pub release_taken : Running → ℕ → Running
release_taken s t = record {
  table = release_keys s.table t (s.releasing t);
  releasing = λ u. if t == u then [] else s.releasing u;
}

-- Run without a break, the two are `ReleaseAll`.
pub release_taken-take_keys :
    (s : Running) (t : ℕ) → (release_taken (take_keys s t) t).table ≡ release_all s.table t
unfolding release_taken release_all
release_taken-take_keys s t =
    ap
      (λ (b : Bool).
        release_keys (set_held s.table t []) t (if b then s.table.txn_locks t else s.releasing t))
      (==_refl t)

-- The lock manager as if the keys that are being released were still listed.
abbrev pub relisted : Running → LockManager
relisted s = record s.table { txn_locks = λ t. s.releasing t ++ s.table.txn_locks t }

module _ (s : Running) (lk : Bytes) (t : ℕ) (real : t ≢ 0) (v : Inv (relisted s)) where
  pub acquires-Inv :
      s.table.waiting t ≡ none
      → (entry s.table lk).hold_count + 1 < u32_mod
      → Inv (relisted (in_table s (acquire s.table lk t).0))
  acquires-Inv idle room =
      unfold acquire in
      Inv-ext (acquire (relisted s) lk t).0 (relisted (in_table s (acquire s.table lk t).0))
        (λ k. ground arith)
        (λ u. ground (arith, append_assoc (s.releasing t) (s.table.txn_locks t) (lk ∷ [])))
        (λ u. ground arith) (acquire-Inv (relisted s) lk t real v idle room)

  pub wakes-Inv : s.table.waiting t ≡ some lk → Inv (relisted (in_table s (wake s.table lk t).0))
  wakes-Inv waits =
      unfold wake in
      Inv-ext (wake (relisted s) lk t).0 (relisted (in_table s (wake s.table lk t).0))
        (λ k. ground arith)
        (λ u. ground (arith, append_assoc (s.releasing t) (s.table.txn_locks t) (lk ∷ [])))
        (λ u. ground arith) (wake-Inv (relisted s) lk t real v waits)

  pub times_out-Inv :
      s.table.waiting t ≡ some lk → Inv (relisted (in_table s (time_out s.table lk t).0))
  times_out-Inv waits =
      unfold time_out in
      Inv-ext (time_out (relisted s) lk t).0 (relisted (in_table s (time_out s.table lk t).0))
        (λ k. ground arith)
        (λ u. ground (arith, append_assoc (s.releasing t) (s.table.txn_locks t) (lk ∷ [])))
        (λ u. ground arith) (time_out-Inv (relisted s) lk t real v waits)

count_key-join :
    (k : Bytes) (xs ys : List Bytes) → count_key k (xs ++ ys) ≡ count_key k xs + count_key k ys
unfolding count_key
count_key-join k [] ys = omega arith
count_key-join k (x ∷ xs) ys = omega (arith, count_key-join k xs ys)

-- The lists of the transactions have no part in what a release does to the locks.
module _ (m m' : LockManager) (e : m.locks ≡ m'.locks) where
  locks-release_internal :
      (lk k : Bytes) → (release_internal m lk).locks k ≡ (release_internal m' lk).locks k
  locks-release_internal lk k = unfold release_internal in ground (arith, e)

  locks-release_owned :
      (lk : Bytes) (t : ℕ) → (release_owned m lk t).locks ≡ (release_owned m' lk t).locks
  locks-release_owned lk t =
      fun_ext (λ k. unfold release_owned release_internal in ground (arith, e))

locks-release_keys :
    (m m' : LockManager) (t : ℕ) (keys : List Bytes)
    → m.locks ≡ m'.locks
    → (release_keys m t keys).locks ≡ (release_keys m' t keys).locks
unfolding release_keys
locks-release_keys m m' t [] e = e
locks-release_keys m m' t (lk ∷ keys) e =
    locks-release_keys (release_owned m lk t) (release_owned m' lk t) t keys
      (locks-release_owned m m' e lk t)

module _ (s : Running) (t : ℕ) (real : t ≢ 0) (v : Inv (relisted s)) where
  given_back :
      (lk : Bytes)
      → has_key lk (s.table.txn_locks t) ≡ true
      → Inv (
          relisted (
            in_table s
              (release_internal (set_held s.table t (erase_key lk (s.table.txn_locks t))) lk)))
  given_back lk has =
      let listed : List Bytes = s.table.txn_locks t in
      let before : List Bytes = s.releasing t ++ listed in
      let behind : List Bytes = s.releasing t ++ erase_key lk listed in
      let one : (k : Bytes)
          → count_key k before ≡ count_key k behind + (if lk =l= k then 1 else 0) =
        λ k. omega (
          arith,
          count_key-join k (s.releasing t) listed,
          count_key-join k (s.releasing t) (erase_key lk listed),
          count_key-erase k lk listed has,
        ) in
      let own : Inv (set_held (relisted s) t before) =
        Inv-ext (relisted s) _ (λ k. refl) (λ u. ground arith) (λ u. refl) v in
      unfold release_internal in
      Inv-ext (set_held (release_internal (relisted s) lk) t behind) _ (λ k. ground arith)
        (λ u. ground arith) (λ u. ground arith)
        (release_internal-Inv (relisted s) lk t real before behind one own)

  pub releases-Inv : (lk : Bytes) → Inv (relisted (in_table s (release s.table lk t)))
  releases-Inv lk =
      unfold release in
      elim (Option-cases (s.table.locks lk)) [
        | inl e ↦ rw (e, release) v
        | inr (x, e) ↦
            rw (e, release)
              (elim (Bool-cases (x.owner == t)) [
                | inr other ↦ rw other v
                | inl mine ↦ rw mine (elim (Bool-cases (has_key lk (s.table.txn_locks t))) [
                  | inr absent ↦ rw absent v
                  | inl has ↦ rw has (given_back lk has)
                ])
              ])
      ]

  pub takes_keys-Inv : s.releasing t ≡ [] → Inv (relisted (take_keys s t))
  takes_keys-Inv none_yet =
      Inv-ext (relisted s) _ (λ k. refl)
        (λ u. ground (arith, none_yet, append-nil (s.table.txn_locks t))) (λ u. refl) v

  pub releases_taken-Inv : Inv (relisted (release_taken s t))
  releases_taken-Inv =
      unfold release_taken in
      let keys : List Bytes = s.releasing t in
      let own : Inv (set_held (relisted s) t (keys ++ s.table.txn_locks t)) =
        Inv-ext (relisted s) _ (λ k. refl) (λ u. ground arith) (λ u. refl) v in
      Inv-ext (set_held (release_keys (relisted s) t keys) t (s.table.txn_locks t)) _
        (λ k. ap (λ f. f k) (locks-release_keys (relisted s) s.table t keys refl))
        (λ u. ground (
          arith,
          ap (λ f. f u) (txn_locks-release_keys (relisted s) t keys),
          ap (λ f. f u) (txn_locks-release_keys s.table t keys),
        ))
        (λ u.
          ap (λ f. f u) (waiting-release_keys (relisted s) t keys)
          ∙ sym (ap (λ f. f u) (waiting-release_keys s.table t keys)))
        (release_keys-Inv (relisted s) t keys (s.table.txn_locks t) real own)
