-- ===== src/Locks.antt =====
-- `LockManager` of src/txn/lock_manager.h and src/txn/lock_manager.cpp. A call of `Acquire` that
-- blocks is split where it waits on the condition variable: `acquire` up to the wait, then `wake` and
-- `time_out` each time the thread holds the mutex again. Each definition is one critical section.
-- A transaction id is not 0, which marks a free lock.
pub mod Invariant
pub mod Release
pub mod Running
pub mod Steps
use trans_db.Prelude.{
  ℕ, ◌+◌, ◌-◌, ◌%◌, Bool, true, false, ◌&&◌, Option, none, some, List, [], ◌∷◌, ◌++◌, ltb, ◌==◌,
  ◌=l=◌, if◌then◌else◌, Status, ok, timed_out,
}
use trans_db.Bytes.{Bytes, u32_mod, append_be}

-- `MakeLockKey`
unfoldable pub make_lock_key : ℕ → Bytes → Bytes
make_lock_key table_id key = append_be 4 table_id ++ key

pub record LockEntry : Type 0 where
  pub owner : ℕ
  pub hold_count : ℕ
  pub wait_queue : List ℕ

abbrev pub no_entry : LockEntry
no_entry = record { owner = 0; hold_count = 0; wait_queue = [] }

-- `locks` and `txn_locks` are the two maps; a transaction without an entry in the second has no key.
-- `waiting` is not in the source: the key for which a call of a transaction is in its wait loop.
pub record LockManager : Type 0 where
  pub locks : Bytes → Option LockEntry
  pub txn_locks : ℕ → List Bytes
  pub waiting : ℕ → Option Bytes

-- `locks_[lk]`, which makes the entry where there is none.
abbrev pub entry : LockManager → Bytes → LockEntry
entry m lk = elim (m.locks lk) [ none ↦ no_entry | some e ↦ e ]

abbrev pub set_entry : LockManager → Bytes → Option LockEntry → LockManager
set_entry m lk e = record m { locks = λ j. if lk =l= j then e else m.locks j }

abbrev pub set_held : LockManager → ℕ → List Bytes → LockManager
set_held m txn_id keys = record m { txn_locks = λ t. if txn_id == t then keys else m.txn_locks t }

abbrev pub set_waiting : LockManager → ℕ → Option Bytes → LockManager
set_waiting m txn_id w = record m { waiting = λ t. if txn_id == t then w else m.waiting t }

-- `txn_locks_[txn_id].push_back(lk)`; the order of these keys is of no effect on the lock table.
abbrev pub push_held : LockManager → ℕ → Bytes → LockManager
push_held m txn_id lk = set_held m txn_id (m.txn_locks txn_id ++ lk ∷ [])

pub data Answer : Type 0 where
  done : Status → Answer
  blocked : Answer

-- `Acquire`, to its return or to the wait.
unfoldable pub acquire : LockManager → Bytes → ℕ → LockManager × Answer
acquire m lk txn_id =
    let e = entry m lk in
    if e.owner == txn_id
    then (
      push_held (set_entry m lk (some (record e { hold_count = (e.hold_count + 1) % u32_mod })))
          txn_id lk,
      done ok,
    )
    else if e.owner == 0
    then (
      push_held (set_entry m lk (some (record e { owner = txn_id; hold_count = 1 }))) txn_id lk,
      done ok,
    )
    else (
      set_waiting (set_entry m lk (some (record e { wait_queue = e.wait_queue ++ txn_id ∷ [] })))
          txn_id (some lk),
      blocked,
    )

-- The test at the head of the wait loop.
unfoldable pub wake : LockManager → Bytes → ℕ → LockManager × Answer
wake m lk txn_id =
    let e = entry m lk in
    if (e.owner == txn_id) && ltb 0 e.hold_count
    then (set_waiting (push_held m txn_id lk) txn_id none, done ok)
    else (m, blocked)

-- `std::find` and `erase`: the first occurrence goes.
unfoldable pub erase_id : ℕ → List ℕ → List ℕ
erase_id t [] = []
erase_id t (u ∷ q) = if u == t then q else u ∷ erase_id t q

unfoldable pub erase_key : Bytes → List Bytes → List Bytes
erase_key k [] = []
erase_key k (j ∷ ks) = if j =l= k then ks else j ∷ erase_key k ks

unfoldable pub has_key : Bytes → List Bytes → Bool
has_key k [] = false
has_key k (j ∷ ks) = if j =l= k then true else has_key k ks

-- The branch of the wait that timed out.
unfoldable pub time_out : LockManager → Bytes → ℕ → LockManager × Answer
unfolding erase_id
time_out m lk txn_id =
    let e = entry m lk in
    if (e.owner == txn_id) && ltb 0 e.hold_count
    then (set_waiting (push_held m txn_id lk) txn_id none, done ok)
    else (
      set_waiting (set_entry m lk (some (record e { wait_queue = erase_id txn_id e.wait_queue })))
          txn_id none,
      done timed_out,
    )

-- The loop over the wait queue, which takes at most one waiter.
unfoldable pub hand_over : List ℕ → LockEntry
hand_over [] = record { owner = 0; hold_count = 0; wait_queue = [] }
hand_over (next ∷ rest) = record { owner = next; hold_count = 1; wait_queue = rest }

abbrev is_nil : List ℕ → Bool
is_nil [] = true
is_nil (t ∷ q) = false

unfoldable pub drop_if_free : LockEntry → Option LockEntry
drop_if_free e =
    if (e.hold_count == 0) && (is_nil e.wait_queue && (e.owner == 0)) then none else some e

-- `ReleaseInternal`
unfoldable pub release_internal : LockManager → Bytes → LockManager
unfolding hand_over drop_if_free
release_internal m lk = elim (m.locks lk) [
  | none ↦ m
  | some e ↦
      if e.hold_count == 0
      then m
      else if ltb 0 (e.hold_count - 1)
      then set_entry m lk (some (record e { hold_count = e.hold_count - 1 }))
      else set_entry m lk (drop_if_free (hand_over e.wait_queue))
]

-- `Release`
unfoldable pub release : LockManager → Bytes → ℕ → LockManager
release m lk txn_id = elim (m.locks lk) [
  | none ↦ m
  | some e ↦
      if e.owner == txn_id
      then (if has_key lk (m.txn_locks txn_id)
          then release_internal (set_held m txn_id (erase_key lk (m.txn_locks txn_id))) lk
          else m)
      else m
]

-- One round of the loop of `ReleaseAll`.
unfoldable pub release_owned : LockManager → Bytes → ℕ → LockManager
release_owned m lk txn_id = elim (m.locks lk) [
  | none ↦ m
  | some e ↦ if e.owner == txn_id then release_internal m lk else m
]

unfoldable pub release_keys : LockManager → ℕ → List Bytes → LockManager
release_keys m txn_id [] = m
release_keys m txn_id (lk ∷ keys) = release_keys (release_owned m lk txn_id) txn_id keys

-- `ReleaseAll`, when nothing runs between its two sections; they are apart in the child Running.
unfoldable pub release_all : LockManager → ℕ → LockManager
unfolding release_keys
release_all m txn_id = release_keys (set_held m txn_id []) txn_id (m.txn_locks txn_id)
