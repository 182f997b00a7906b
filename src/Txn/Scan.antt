-- ===== src/Txn/Scan.antt =====
-- `TxnManager::Scan` of src/txn/txn_manager.cpp: the rows of the store's iterator under the
-- transaction's own writes.
use trans_db.Prelude.{
  ℕ, suc, Bool, ◌&&◌, ◌==◌, ◌=l=◌, Option, none, some, List, [], ◌∷◌, ◌++◌, length, if◌then◌else◌,
  Status, ok, invalid_argument,
}
use trans_db.Bytes.{Bytes}
use trans_db.Storage.Key.{encode_key_prefix_newest}
use trans_db.Storage.Rocks.{Rocks, seek}
use trans_db.Storage.Iterator.{Range, Row, scan_store, drain}
use trans_db.Storage.Between.{upto_end, first_versions}
use trans_db.Txn.{
  TxnManager, Transaction, BufferedWrite, ReadEntry, is_active, latest_buffered, set_txn,
}

module _ (R : Rocks) where
  -- The loop over the iterator's rows; each row that no write of the transaction covers is a read.
  unfoldable pub scan_loop :
      TxnManager R
      → ℕ
      → ℕ
      → List BufferedWrite
      → List Row
      → TxnManager R × (Status × List (Bytes × Bytes))
  scan_loop m txn_id table_id writes [] = (m, (ok, []))
  scan_loop m txn_id table_id writes (row ∷ rows) =
      let (m', (st, rest)) = scan_loop m txn_id table_id writes rows in
      elim (latest_buffered writes table_id row.pk) [
        | some bw ↦ (m', (st, if bw.is_delete then rest else (row.pk, bw.value) ∷ rest))
        | none ↦ elim (m.txns txn_id) [
          | none ↦ (m, (invalid_argument, []))
          | some txn ↦
              let read : ReadEntry = record {
                table_id = table_id;
                key = row.pk;
                observed_write_ts = row.write_ts;
              } in
              let noted =
                set_txn R m txn_id (some (record txn { read_set = txn.read_set ++ (read ∷ []) })) in
              let (m'', (st', rest')) = scan_loop noted txn_id table_id writes rows in
              if is_active txn.state
              then (m'', (st', (row.pk, row.value) ∷ rest'))
              else (m, (invalid_argument, []))
        ]
      ]

  -- `Scan`. The iterator is drained with more fuel than the store has entries.
  unfoldable pub scan :
      TxnManager R → ℕ → ℕ → Bytes → Bytes → Bool → TxnManager R × (Status × List (Bytes × Bytes))
  scan m txn_id table_id range_start_pk range_end_exclusive range_end_open = elim (m.txns txn_id) [
    | none ↦ (m, (invalid_argument, []))
    | some txn ↦
        let q : Range = record {
          table_id = table_id;
          start_pk = range_start_pk;
          end_pk_exclusive = if range_end_open then [] else range_end_exclusive;
          snapshot_ts = txn.snapshot_ts;
          open_end_exclusive = range_end_open;
        } in
        let rows = drain q (suc (length (R.entries m.store))) (scan_store R m.store q) in
        let scanned = scan_loop m txn_id table_id txn.write_set rows in
        if is_active txn.state then scanned else (m, (invalid_argument, []))
  ]

-- The transaction's own writes of a key, in order, and the last of a list.
unfoldable pub writes_of : ℕ → Bytes → List BufferedWrite → List BufferedWrite
writes_of table_id key [] = []
writes_of table_id key (w ∷ ws) =
    let rest = writes_of table_id key ws in
    if (w.table_id == table_id) && (w.key =l= key) then w ∷ rest else rest

unfoldable pub last_or : Option BufferedWrite → List BufferedWrite → Option BufferedWrite
last_or found [] = found
last_or found (w ∷ ws) = last_or (some w) ws

abbrev pub last_write : List BufferedWrite → ℕ → Bytes → Option BufferedWrite
last_write ws table_id key = last_or none (writes_of table_id key ws)

-- The rows that a transaction is to see: its own last write of a key in place of the stored one.
unfoldable pub overlay : ℕ → List BufferedWrite → List Row → List (Bytes × Bytes)
overlay table_id writes [] = []
overlay table_id writes (row ∷ rows) =
    let rest = overlay table_id writes rows in
    elim (last_write writes table_id row.pk) [
      | some bw ↦ if bw.is_delete then rest else (row.pk, bw.value) ∷ rest
      | none ↦ (row.pk, row.value) ∷ rest
    ]

-- What it has then read.
unfoldable pub reads_of : ℕ → List BufferedWrite → List Row → List ReadEntry
reads_of table_id writes [] = []
reads_of table_id writes (row ∷ rows) =
    let rest = reads_of table_id writes rows in
    elim (last_write writes table_id row.pk) [
      | some bw ↦ rest
      | none ↦ record { table_id = table_id; key = row.pk; observed_write_ts = row.write_ts } ∷ rest
    ]

module _ (R : Rocks) where
  -- The first version in the transaction's snapshot of each primary key of the range, as far as the
  -- first entry behind it in the store's order.
  unfoldable pub rows_in : TxnManager R → Transaction → ℕ → Bytes → Bytes → Bool → List Row
  rows_in m txn table_id range_start_pk range_end_exclusive range_end_open =
      let q : Range = record {
        table_id = table_id;
        start_pk = range_start_pk;
        end_pk_exclusive = if range_end_open then [] else range_end_exclusive;
        snapshot_ts = txn.snapshot_ts;
        open_end_exclusive = range_end_open;
      } in
      first_versions q none
        (upto_end q (seek (encode_key_prefix_newest table_id range_start_pk) (R.entries m.store)))
