-- ===== src/Txn/Redo.antt =====
-- Recovery in src/txn/txn_manager.cpp against the calls that wrote the log: the records of one
-- transaction, between those of others, stand for its write set.
use trans_db.Prelude.{
  ℕ, ◌<◌, ◌≡◌, ◌≢◌, ◌⊎◌, refl, sym, ap, ap₂, ◌∙◌, inl, inr, some, true, false, List, [], ◌∷◌, ◌++◌,
  length, if◌then◌else◌, arith, Bool-cases, ==_iff, ne→==, ◌==◌, ◌&&◌, none, Bool, append_assoc,
  append-nil,
}
use trans_db.Bytes.{Bytes, u32_mod, u64_mod}
use trans_db.Wal.Payload.{
  serialize_begin_payload, deserialize_begin_payload, deserialize_begin-serialize,
  serialize_write_payload, serialize_delete_payload, deserialize_write_payload,
  deserialize_delete_payload, deserialize_write-serialize, deserialize_delete-serialize,
}
use trans_db.Wal.Record.{WalRecord, WalRecordType, begin, write, delete, prepare}
use trans_db.Storage.Rocks.{Rocks}
use trans_db.Storage.Mvcc
use trans_db.Txn.{BufferedWrite, Transaction}
use trans_db.Txn.Recover.{rebuild}

-- A write whose key and value have lengths that the payload can tell, and that is as `Write` or
-- `Delete` makes it.
unfoldable pub FitsBuffered : BufferedWrite → Type 0
FitsBuffered w =
    (w.table_id < u32_mod)
    × (length w.key < u32_mod)
    × (length w.value < u32_mod)
    × (w.is_delete ≡ true → w.value ≡ [])

-- The record of a buffered write.
unfoldable pub record_of : BufferedWrite → WalRecordType × Bytes
record_of w =
    if w.is_delete
    then (delete, serialize_delete_payload w.table_id w.key 0)
    else (write, serialize_write_payload w.table_id w.key w.value 0)

-- The records that `Begin` and `Prepare` write of the transaction itself.
unfoldable pub IsMark : WalRecord → Type 0
IsMark r =
    ((r.type ≡ begin) × (ts : ℕ) × (ts < u64_mod) × (r.payload ≡ serialize_begin_payload ts))
    ⊎ (r.type ≡ prepare)

abbrev is_begin : WalRecordType → Bool
is_begin begin = true
is_begin _ = false

-- The snapshot in the last `BEGIN` record of the transaction, and `ts` where there is none.
unfoldable pub begun_at : ℕ → ℕ → List WalRecord → ℕ
begun_at tid ts [] = ts
begun_at tid ts (r ∷ rs) =
    if (r.txn_id == tid) && is_begin r.type
    then elim (deserialize_begin_payload r.payload) [
      | none ↦ begun_at tid ts rs
      | some s ↦ begun_at tid s rs
    ]
    else begun_at tid ts rs

-- The records hold, of the transaction `tid`, one record for each of the writes, in order, and
-- besides them its records of `Begin` and `Prepare`.
pub data Logged (tid : ℕ) : List WalRecord → List BufferedWrite → Type 0 where
  empty : Logged tid [] []
  mine :
      {r : WalRecord} {rs : List WalRecord} {w : BufferedWrite} {ws : List BufferedWrite}
      → r.txn_id ≡ tid
      → (r.type, r.payload) ≡ record_of w
      → FitsBuffered w
      → Logged tid rs ws
      → Logged tid (r ∷ rs) (w ∷ ws)
  mark :
      {r : WalRecord} {rs : List WalRecord} {ws : List BufferedWrite}
      → r.txn_id ≡ tid
      → IsMark r
      → Logged tid rs ws
      → Logged tid (r ∷ rs) ws
  not_mine :
      {r : WalRecord} {rs : List WalRecord} {ws : List BufferedWrite}
      → r.txn_id ≢ tid
      → Logged tid rs ws
      → Logged tid (r ∷ rs) ws

zero_fits : 0 < u64_mod
zero_fits = omega arith

-- What the record says, by the two kinds of write.
record_of_lem :
    (r : WalRecord) (w : BufferedWrite)
    → (r.type, r.payload) ≡ record_of w
    → FitsBuffered w
    → ((w.is_delete ≡ false)
        × (r.type ≡ write)
        × (deserialize_write_payload r.payload
            ≡ some (record { table_id = w.table_id; key = w.key; value = w.value; write_ts = 0 })))
      ⊎ ((w.is_delete ≡ true)
          × (r.type ≡ delete)
          × (deserialize_delete_payload r.payload
              ≡ some (record { table_id = w.table_id; key = w.key; write_ts = 0 }))
          × (w.value ≡ []))
unfolding record_of FitsBuffered
record_of_lem r w e (ht, hk, hv, blank) = elim (Bool-cases w.is_delete) [
  | inr plain ↦
      let q : (r.type, r.payload) ≡ (write, serialize_write_payload w.table_id w.key w.value 0) =
        e ∙ rw plain refl in
      inl (
        plain,
        ap (λ p. p.0) q,
        ap (λ p. deserialize_write_payload p.1) q
            ∙ deserialize_write-serialize
                (record { table_id = w.table_id; key = w.key; value = w.value; write_ts = 0 })
                (ht, hk, hv, zero_fits),
      )
  | inl gone ↦
      let q : (r.type, r.payload) ≡ (delete, serialize_delete_payload w.table_id w.key 0) =
        e ∙ rw gone refl in
      inr (
        gone,
        ap (λ p. p.0) q,
        ap (λ p. deserialize_delete_payload p.1) q
            ∙ deserialize_delete-serialize
                (record { table_id = w.table_id; key = w.key; write_ts = 0 }) (ht, hk, zero_fits),
        blank gone,
      )
]

-- If the records hold, of one transaction and between those of others, one record for each of its
-- writes in order, besides its records of `Begin` and `Prepare`, then recovery of a prepared
-- transaction appends exactly these writes to its write set, and its snapshot is the one in its
-- last `BEGIN` record, or stays where the records hold none.
pub rebuild_lem :
    (tid : ℕ) (rs : List WalRecord) (ws : List BufferedWrite) (txn : Transaction)
    → Logged tid rs ws
    → rebuild tid rs txn
      ≡ some (record txn {
        snapshot_ts = begun_at tid txn.snapshot_ts rs;
        write_set = txn.write_set ++ ws;
      })
unfolding rebuild begun_at record_of FitsBuffered IsMark
rebuild_lem tid [] [] txn empty =
    ap (λ l. some (record txn { write_set = l })) (sym (append-nil txn.write_set))
rebuild_lem tid [] (w ∷ ws) txn h = elim h [ ]
rebuild_lem tid (r ∷ rs) ws txn (not_mine other_txn l) =
    ground (arith, ne→== r.txn_id tid other_txn, rebuild_lem tid rs ws txn l)
rebuild_lem tid (r ∷ rs) ws txn (mark ours (inl (type, ts, fits, payload)) l) =
    let own = (==_iff r.txn_id tid).1 ours in
    let read : deserialize_begin_payload r.payload ≡ some ts =
      ap deserialize_begin_payload payload ∙ deserialize_begin-serialize ts fits in
    ground (arith, own, type, read, rebuild_lem tid rs ws (record txn { snapshot_ts = ts }) l)
rebuild_lem tid (r ∷ rs) ws txn (mark ours (inr type) l) =
    ground (arith, (==_iff r.txn_id tid).1 ours, type, rebuild_lem tid rs ws txn l)
rebuild_lem tid (r ∷ rs) (w ∷ ws) txn (mine ours e fits l) =
    let own = (==_iff r.txn_id tid).1 ours in
    let push : BufferedWrite → Transaction =
      λ v. record txn { write_set = txn.write_set ++ v ∷ [] } in
    let ih =
      rebuild_lem tid rs ws (push w) l
      ∙ ap (λ k. some (record txn { snapshot_ts = begun_at tid txn.snapshot_ts rs; write_set = k }))
          (append_assoc txn.write_set (w ∷ []) ws) in
    elim (record_of_lem r w e fits) [
      | inl (plain, type, read) ↦
          let same : begun_at tid txn.snapshot_ts (r ∷ rs) ≡ begun_at tid txn.snapshot_ts rs =
            ground (arith, type) in
          let step : rebuild tid (r ∷ rs) txn
              ≡ rebuild tid rs (push (record w { is_delete = false })) =
            ground (arith, own, type, read) in
          rw same
            (step ∙ ap (λ b. rebuild tid rs (push (record w { is_delete = b }))) (sym plain) ∙ ih)
      | inr (gone, type, read, blank) ↦
          let same : begun_at tid txn.snapshot_ts (r ∷ rs) ≡ begun_at tid txn.snapshot_ts rs =
            ground (arith, type) in
          let step : rebuild tid (r ∷ rs) txn
              ≡ rebuild tid rs (push (record w { value = []; is_delete = true })) =
            ground (arith, own, type, read) in
          rw same (
            step
            ∙ ap₂ (λ v b. rebuild tid rs (push (record w { value = v; is_delete = b }))) (sym blank)
                (sym gone)
            ∙ ih)
    ]
