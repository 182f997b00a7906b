-- ===== src/Txn/Lifecycle.antt =====
-- The life of a transaction in src/txn/txn_manager.cpp: what `Read`, `Prepare`, `Commit` and `Abort`
-- ask of its state and leave behind.
use trans_db.Prelude.{
  ℕ, ◌≡◌, refl, ap, ◌∙◌, inl, inr, some, true, List, [], ◌∷◌, ◌++◌, length, ◌==◌, if◌then◌else◌,
  Status, ok, not_found, is_ok, All, arith, Bool-cases, Option-cases, ==_refl, ==_iff, =l=_refl,
}
use trans_db.Bytes.{Bytes}
use trans_db.Wal.Log.{Wal, WriteOutcome, SyncOutcome, append_sync, append, sync}
use trans_db.Wal.Record.{WalRecordType, prepare}
use trans_db.Wal.Payload.{serialize_prepare_payload}
use trans_db.Storage.Rocks.{Rocks}
use trans_db.Storage.Mvcc.{get}
use trans_db.Txn.{
  prepared, is_active, BufferedWrite, ReadEntry, Transaction, TxnManager, Io, latest_buffered,
  set_txn, validate_read_set,
}
use trans_db.Txn.Calls.{read_key, write_key, delete_key, buffer_write, prepare_txn}

latest_buffered-push :
    (ws : List BufferedWrite) (w : BufferedWrite)
    → latest_buffered (ws ++ w ∷ []) w.table_id w.key ≡ some w
unfolding latest_buffered
latest_buffered-push [] w = rw (==_refl w.table_id, =l=_refl w.key) refl
latest_buffered-push (x ∷ ws) w = rw (latest_buffered-push ws w) refl

-- The state behind a write that was buffered.
abbrev buffered : (R : Rocks) → TxnManager R → ℕ → Transaction → BufferedWrite → Wal → TxnManager R
buffered R m t x bw wal =
    record (set_txn R m t (
      some (record x {
        locked_keys = x.locked_keys ++ (bw.table_id, bw.key) ∷ [];
        write_set = x.write_set ++ bw ∷ [];
      }))) { wal = wal }

buffer_write_ok :
    (R : Rocks) (m : TxnManager R) (t : ℕ) (acq : Status) (bw : BufferedWrite)
    (type : WalRecordType) (payload : Bytes) (io : Io)
    → (buffer_write R m t acq bw type payload io).1 ≡ ok
    → (x : Transaction) × (m.txns t ≡ some x)
      × (is_active x.state ≡ true)
      × ((buffer_write R m t acq bw type payload io).0
          ≡ buffered R m t x bw (append m.wal t type payload io.outcome).0)
unfolding buffer_write
buffer_write_ok R m t acq bw type payload io h = elim (Bool-cases (is_ok acq)) [
  | inr bad ↦ elim (let z : ⊥ = ground (arith, bad, h) in z) [ ]
  | inl good ↦ elim (Option-cases (m.txns t)) [
    | inl q ↦ elim (let z : ⊥ = ground (arith, good, q, h) in z) [ ]
    | inr (x, q) ↦ elim (Bool-cases (is_active x.state)) [
      | inr idle ↦ elim (let z : ⊥ = ground (arith, good, q, idle, h) in z) [ ]
      | inl live ↦ (x, q, live, rw (good, q, live) refl)
    ]
  ]
]

pub at_self {ℓ} : {A : Type ℓ} (t : ℕ) (x y : A) → (if t == t then x else y) ≡ x
at_self t x y = ap (λ b. if b then x else y) (==_refl t)

read_key_hit :
    (R : Rocks) (m : TxnManager R) (t tid : ℕ) (key : Bytes) (y : Transaction) (bw : BufferedWrite)
    → m.txns t ≡ some y
    → is_active y.state ≡ true
    → latest_buffered y.write_set tid key ≡ some bw
    → read_key R m t tid key ≡ (if bw.is_delete then (m, not_found, []) else (m, ok, bw.value))
unfolding read_key
read_key_hit R m t tid key y bw q live hit = ground (arith, q, live, hit)

read_key-buffered :
    (R : Rocks) (m : TxnManager R) (t : ℕ) (x : Transaction) (bw : BufferedWrite) (wal : Wal)
    → is_active x.state ≡ true
    → read_key R (buffered R m t x bw wal) t bw.table_id bw.key ≡ (
        if bw.is_delete
        then (buffered R m t x bw wal, not_found, [])
        else (buffered R m t x bw wal, ok, bw.value))
read_key-buffered R m t x bw wal live =
    read_key_hit R (buffered R m t x bw wal) t bw.table_id bw.key
      (record x {
        locked_keys = x.locked_keys ++ (bw.table_id, bw.key) ∷ [];
        write_set = x.write_set ++ bw ∷ [];
      })
      bw (at_self t _ (m.txns t)) live (latest_buffered-push x.write_set bw)

-- After a `Write` that succeeds, `Read` of the key in the transaction gives the value written, and
-- changes nothing.
pub read_key-write_key :
    (R : Rocks) (m : TxnManager R) (t tid : ℕ) (acq : Status) (key value : Bytes) (io : Io)
    → (write_key R m t acq tid key value io).1 ≡ ok
    → read_key R (write_key R m t acq tid key value io).0 t tid key
      ≡ ((write_key R m t acq tid key value io).0, ok, value)
unfolding write_key
read_key-write_key R m t tid acq key value io h =
    let (x, q, live, after) = buffer_write_ok R m t acq _ _ _ io h in
    rw after (read_key-buffered R m t x _ _ live)

-- After a `Delete` that succeeds, `Read` of the key in the transaction answers `NotFound`, and
-- changes nothing.
pub read_key-delete_key :
    (R : Rocks) (m : TxnManager R) (t tid : ℕ) (acq : Status) (key : Bytes) (io : Io)
    → (delete_key R m t acq tid key io).1 ≡ ok
    → read_key R (delete_key R m t acq tid key io).0 t tid key
      ≡ ((delete_key R m t acq tid key io).0, not_found, [])
unfolding delete_key
read_key-delete_key R m t tid acq key io h =
    let (x, q, live, after) = buffer_write_ok R m t acq _ _ _ io h in
    rw after (read_key-buffered R m t x _ _ live)

-- The version that `Get` gives at the timestamp is the one that was read.
unfoldable pub IsCurrent : (R : Rocks) → R.Db → ℕ → ReadEntry → Type 0
IsCurrent R d commit_ts r =
    (v : Bytes) × (get R d r.table_id r.key commit_ts ≡ some (v, r.observed_write_ts))

validate_read_set_lem :
    (R : Rocks) (d : R.Db) (rs : List ReadEntry) (commit_ts : ℕ)
    → is_ok (validate_read_set R d rs commit_ts) ≡ true
    → All (IsCurrent R d commit_ts) rs
unfolding validate_read_set IsCurrent
validate_read_set_lem R d [] commit_ts h = tt
validate_read_set_lem R d (r ∷ rs) commit_ts h =
    elim (Option-cases (get R d r.table_id r.key commit_ts)) [
      | inl q ↦ elim (let z : ⊥ = ground (arith, q, h) in z) [ ]
      | inr ((v, ts), q) ↦ elim (Bool-cases (ts == r.observed_write_ts)) [
        | inr differs ↦ elim (let z : ⊥ = ground (arith, q, differs, h) in z) [ ]
        | inl same ↦ (
          (v, q ∙ ap (λ u. some (v, u)) ((==_iff ts r.observed_write_ts).0 same)),
          validate_read_set_lem R d rs commit_ts (ground (arith, q, same, h)),
        )
      ]
    ]

pub append_sync_ok :
    (w : Wal) (t : ℕ) (type : WalRecordType) (payload : Bytes) (outcome : WriteOutcome)
    (sync_outcome : SyncOutcome)
    → is_ok (append_sync w t type payload outcome sync_outcome).1 ≡ true
    → (append_sync w t type payload outcome sync_outcome).0.synced
      ≡ length (append_sync w t type payload outcome sync_outcome).0.file
unfolding append_sync sync
append_sync_ok w t type payload outcome sync_outcome h =
    elim (Bool-cases (is_ok (append w t type payload outcome).1)) [
      | inr bad ↦ elim (let z : ⊥ = ground (arith, bad, h) in z) [ ]
      | inl good ↦ ground (arith, good, h)
    ]

-- A `Prepare` that succeeds found the transaction active and every version it has read still the
-- current one at the commit timestamp. Behind it the transaction is prepared at that timestamp,
-- all of the log is on disk, and the store and the locks are as they were.
pub prepare_txn_ok :
    (R : Rocks) (m : TxnManager R) (t commit_ts : ℕ) (io : Io)
    → (prepare_txn R m t commit_ts io).1 ≡ ok
    → let after = (prepare_txn R m t commit_ts io).0 in
      (x : Transaction) × (m.txns t ≡ some x)
      × (is_active x.state ≡ true)
      × All (IsCurrent R m.store commit_ts) x.read_set
      × (after.txns t ≡ some (record x { state = prepared; prepare_commit_ts = commit_ts }))
      × (after.wal.synced ≡ length after.wal.file)
      × (after.store ≡ m.store)
      × (after.locks ≡ m.locks)
unfolding prepare_txn
prepare_txn_ok R m t commit_ts io h = elim (Option-cases (m.txns t)) [
  | inl q ↦ elim (let z : ⊥ = ground (arith, q, h) in z) [ ]
  | inr (x, q) ↦ elim (Bool-cases (is_active x.state)) [
    | inr idle ↦ elim (let z : ⊥ = ground (arith, q, idle, h) in z) [ ]
    | inl live ↦ elim (Bool-cases (is_ok (validate_read_set R m.store x.read_set commit_ts))) [
      | inr stale ↦ elim (let z : ⊥ = ground (arith, q, live, stale, h) in z) [ ]
      | inl valid ↦ elim (Bool-cases (is_ok (logged x).1)) [
        | inr lost ↦ elim (let z : ⊥ = ground (arith, q, live, valid, lost, h) in z) [ ]
        | inl kept ↦
            let after : (prepare_txn R m t commit_ts io).0
                ≡ record (set_txn R m t
                    (some (record x { state = prepared; prepare_commit_ts = commit_ts }))) {
                      wal = (logged x).0;
                    } =
              ground (arith, q, live, valid, kept) in
            rw after (
              x,
              q,
              live,
              validate_read_set_lem R m.store x.read_set commit_ts valid,
              at_self t _ (m.txns t),
              append_sync_ok _ _ _ _ _ _ kept,
              refl,
              refl,
            )
      ]
    ]
  ]
]
  where
    logged : Transaction → Wal × Status
    logged x =
        append_sync m.wal t prepare (serialize_prepare_payload commit_ts) io.outcome io.sync_outcome
