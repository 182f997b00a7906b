-- ===== src/Locks/Release.antt =====
-- Releasing locks: the invariant is kept, the longest waiter gets the lock, and `ReleaseAll` leaves
-- the transaction without a key. Its two critical sections are also looked at one by one.
use mathlib.Core.Path.{fun_ext}
use trans_db.Prelude.{
  ℕ, ◌+◌, ◌-◌, ◌<◌, ◌≡◌, ◌≢◌, refl, ap, subst, ◌∙◌, inl, inr, true, none, List, [], ◌∷◌, ◌++◌,
  append-nil, ok, ltb, ◌==◌, ◌=l=◌, if◌then◌else◌, arith, Bool-cases, Option-cases, =l=_iff,
  =l=_refl,
}
use trans_db.Bytes.{Bytes}
use trans_db.Locks.{
  LockEntry, LockManager, entry, set_held, erase_key, has_key, hand_over, release_internal, release,
  release_owned, release_keys, release_all, wake, done, blocked,
}
use trans_db.Locks.Invariant.{count_key, count_id, Inv}

count_key-cons :
    (k j : Bytes) (ks : List Bytes)
    → count_key k (j ∷ ks) ≡ count_key k ks + (if j =l= k then 1 else 0)
unfolding count_key
count_key-cons k j ks = omega arith

has_key-count : (k : Bytes) (ks : List Bytes) → 0 < count_key k ks → has_key k ks ≡ true
unfolding count_key has_key
has_key-count k [] h = elim h [ ]
has_key-count k (j ∷ ks) h = ground (arith, has_key-count k ks, =l=_iff j k)

pub count_key-erase :
    (k j : Bytes) (ks : List Bytes)
    → has_key j ks ≡ true
    → count_key k ks ≡ count_key k (erase_key j ks) + (if j =l= k then 1 else 0)
unfolding count_key erase_key has_key
count_key-erase k j [] h = cc
count_key-erase k j (i ∷ ks) h =
    ground (arith, =l=_iff i j, =l=_iff i k, =l=_iff j k, count_key-erase k j ks)

-- The table with `keys` for the list of `t`, of which one occurrence of `lk` is given back.
module _ (m : LockManager) (lk : Bytes) (t : ℕ) (real : t ≢ 0) (keys keys' : List Bytes)
    (one : (k : Bytes) → count_key k keys ≡ count_key k keys' + (if lk =l= k then 1 else 0))
    (v : Inv (set_held m t keys)) where
  owned : ((entry m lk).owner ≡ t) × (0 < (entry m lk).hold_count)
  owned = ground (arith, one lk, v.held t lk, =l=_refl lk)

  -- What the owner's decrement, and the hand-over at the last one, leave in the table.
  after : List ℕ → LockEntry
  after q =
      if ltb 0 ((entry m lk).hold_count - 1)
      then record (entry m lk) { hold_count = (entry m lk).hold_count - 1 }
      else hand_over q

  entry-release_internal :
      (k : Bytes)
      → entry (release_internal m lk) k
        ≡ (if lk =l= k then after (entry m lk).wait_queue else entry m k)
  unfolding release_internal after
  entry-release_internal k = ground (arith, owned)

  pub txn_locks-release_internal : (release_internal m lk).txn_locks ≡ m.txn_locks
  unfolding release_internal
  txn_locks-release_internal = ground arith

  waiting-release_internal : (release_internal m lk).waiting ≡ m.waiting
  unfolding release_internal
  waiting-release_internal = ground arith

  pub release_internal-Inv : Inv (set_held (release_internal m lk) t keys')
  unfolding after hand_over count_id
  release_internal-Inv = record {
    free = λ k. ground (arith, entry-release_internal k, v.free k, v.queued 0 lk, owned);
    taken = λ k. ground (arith, entry-release_internal k, v.taken k, v.queued 0 lk, v.nobody);
    held = λ u k. ground (
      arith,
      entry-release_internal k,
      txn_locks-release_internal,
      waiting-release_internal,
      =l=_iff lk k,
      one k,
      v.held u k,
      v.held u lk,
      v.queued u lk,
      owned,
    );
    queued = λ u k. ground (
      arith,
      entry-release_internal k,
      waiting-release_internal,
      =l=_iff lk k,
      v.queued u k,
      v.queued u lk,
      v.held t lk,
      one lk,
      =l=_refl lk,
      owned,
    );
    nobody = ground (arith, waiting-release_internal, v.nobody);
  }

  pub release_owned-eq : release_owned m lk t ≡ release_internal m lk
  unfolding release_owned release_internal
  release_owned-eq = ground (arith, owned)

pub Inv-ext :
    (m n : LockManager)
    → ((k : Bytes) → m.locks k ≡ n.locks k)
    → ((t : ℕ) → m.txn_locks t ≡ n.txn_locks t)
    → ((t : ℕ) → m.waiting t ≡ n.waiting t)
    → Inv m
    → Inv n
Inv-ext m n el et ew v = subst Inv same v
  where
    same : m ≡ n
    same = λ i. record { locks = fun_ext el i; txn_locks = fun_ext et i; waiting = fun_ext ew i }

-- `Release` keeps the invariant, whether or not the transaction holds the key.
pub release-Inv : (m : LockManager) (lk : Bytes) (t : ℕ) → t ≢ 0 → Inv m → Inv (release m lk t)
unfolding release
release-Inv m lk t real v = elim (Option-cases (m.locks lk)) [
  | inl e ↦ rw (e, release) v
  | inr (x, e) ↦
      rw (e, release)
        (elim (Bool-cases (x.owner == t)) [
          | inr other ↦ rw other v
          | inl mine ↦ rw mine (elim (Bool-cases (has_key lk (m.txn_locks t))) [
            | inr absent ↦ rw absent v
            | inl has ↦ rw has (given_back has)
          ])
        ])
]
  where
    keys : List Bytes
    keys = erase_key lk (m.txn_locks t)

    dropped : LockManager
    dropped = set_held m t keys

    given_back : has_key lk (m.txn_locks t) ≡ true → Inv (release_internal dropped lk)
    given_back has =
        let one = λ (k : Bytes). count_key-erase k lk (m.txn_locks t) has in
        let before : Inv (set_held dropped t (m.txn_locks t)) =
          Inv-ext m _ (λ k. refl) (λ u. ground arith) (λ u. refl) v in
        Inv-ext _ _ (λ k. refl)
          (λ u. ground (
            arith,
            ap (λ f. f u)
                (txn_locks-release_internal dropped lk t real (m.txn_locks t) keys one before),
          ))
          (λ u. refl) (release_internal-Inv dropped lk t real (m.txn_locks t) keys one before)

-- The keys that are released are a part of those that the transaction has: `base` stays.
pub release_keys-Inv :
    (m : LockManager) (t : ℕ) (keys base : List Bytes)
    → t ≢ 0
    → Inv (set_held m t (keys ++ base))
    → Inv (set_held (release_keys m t keys) t base)
unfolding release_keys
release_keys-Inv m t [] base real v = v
release_keys-Inv m t (lk ∷ keys) base real v =
    let one = λ (k : Bytes). count_key-cons k lk (keys ++ base) in
    release_keys-Inv (release_owned m lk t) t keys base real (
      rw (release_owned-eq m lk t real (lk ∷ (keys ++ base)) (keys ++ base) one v)
        (release_internal-Inv m lk t real (lk ∷ (keys ++ base)) (keys ++ base) one v))

txn_locks-release_owned :
    (m : LockManager) (lk : Bytes) (t : ℕ) → (release_owned m lk t).txn_locks ≡ m.txn_locks
unfolding release_owned release_internal
txn_locks-release_owned m lk t = ground arith

waiting-release_owned :
    (m : LockManager) (lk : Bytes) (t : ℕ) → (release_owned m lk t).waiting ≡ m.waiting
unfolding release_owned release_internal
waiting-release_owned m lk t = ground arith

pub txn_locks-release_keys :
    (m : LockManager) (t : ℕ) (keys : List Bytes) → (release_keys m t keys).txn_locks ≡ m.txn_locks
unfolding release_keys
txn_locks-release_keys m t [] = refl
txn_locks-release_keys m t (lk ∷ keys) =
    txn_locks-release_keys (release_owned m lk t) t keys ∙ txn_locks-release_owned m lk t

pub waiting-release_keys :
    (m : LockManager) (t : ℕ) (keys : List Bytes) → (release_keys m t keys).waiting ≡ m.waiting
unfolding release_keys
waiting-release_keys m t [] = refl
waiting-release_keys m t (lk ∷ keys) =
    waiting-release_keys (release_owned m lk t) t keys ∙ waiting-release_owned m lk t

-- `ReleaseAll` keeps the invariant.
pub release_all-Inv : (m : LockManager) (t : ℕ) → t ≢ 0 → Inv m → Inv (release_all m t)
unfolding release_all
release_all-Inv m t real v =
    Inv-ext _ _ (λ k. refl)
      (λ u.
        ground (arith, ap (λ f. f u) (txn_locks-release_keys (set_held m t []) t (m.txn_locks t))))
      (λ u. refl)
      (release_keys-Inv (set_held m t []) t (m.txn_locks t) [] real
        (Inv-ext m _ (λ k. refl) (λ u. ground (arith, append-nil (m.txn_locks t))) (λ u. refl) v))

-- In a state that meets the invariant, after `ReleaseAll` a transaction that waits for nothing
-- owns no key and lists none.
pub release_all_frees :
    (m : LockManager) (t : ℕ) (k : Bytes)
    → t ≢ 0
    → Inv m
    → m.waiting t ≡ none
    → ((entry (release_all m t) k).owner ≢ t) × ((release_all m t).txn_locks t ≡ [])
release_all_frees m t k real v idle = (not_owner, empty)
  where
    empty : (release_all m t).txn_locks t ≡ []
    empty =
        unfold release_all in
        ap (λ f. f t) (txn_locks-release_keys (set_held m t []) t (m.txn_locks t)) ∙ ground arith

    still : (release_all m t).waiting t ≡ none
    still =
        unfold release_all in
        ap (λ f. f t) (waiting-release_keys (set_held m t []) t (m.txn_locks t)) ∙ idle

    not_owner : (entry (release_all m t) k).owner ≢ t
    not_owner e =
        unfold count_key in
        let w : Inv (release_all m t) = release_all-Inv m t real v in
        ground (arith, w.held t k real, w.taken k, still, empty)

-- In a state that meets the invariant, a transaction that waits for nothing and holds a key once,
-- for which `u` has waited longest and then the others in `q`, releases it: then `u` has the lock
-- when it wakes, the others in `q` still wait in their order, and any other transaction that wakes
-- is still blocked.
pub release_serves_first :
    (m : LockManager) (lk : Bytes) (t u : ℕ) (q : List ℕ)
    → Inv m
    → t ≢ 0
    → m.waiting t ≡ none
    → count_key lk (m.txn_locks t) ≡ 1
    → (entry m lk).wait_queue ≡ u ∷ q
    → ((wake (release m lk t) lk u).1 ≡ done ok)
      × ((entry (wake (release m lk t) lk u).0 lk).wait_queue ≡ q)
      × ((w : ℕ) → w ≢ u → (wake (release m lk t) lk w).1 ≡ blocked)
unfolding wake
release_serves_first m lk t u q v real idle once first =
    (ground (arith, after), ground (arith, after), λ w other. ground (arith, after, other))
  where
    owner : ((entry m lk).owner ≡ t) × ((entry m lk).hold_count ≡ 1)
    owner = ground (arith, v.held t lk, v.taken lk, idle, once)

    after : entry (release m lk t) lk ≡ record { owner = u; hold_count = 1; wait_queue = q }
    after =
        unfold release release_internal hand_over in
        ground
          (arith, =l=_refl lk, owner, first, has_key-count lk (m.txn_locks t) (omega (arith, once)))
