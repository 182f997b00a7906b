-- ===== src/Storage/Iterator.antt =====
-- `MVCCIterator` of src/storage/mvcc_iterator.cpp: the rows of a table in a range of primary keys, as a
-- snapshot sees them. `rest` is what the RocksDB iterator `it_` still visits, its current entry first.
use trans_db.Prelude.{
  ℕ, zero, suc, Bool, true, false, not, ◌&&◌, ◌||◌, Option, none, some, List, [], ◌∷◌, length, leb,
  ◌==◌, ◌=l=◌, if◌then◌else◌,
}
use trans_db.Bytes.{Bytes}
use trans_db.Storage.Key.{DecodedKey, decode_key, encode_key_prefix_newest}
use trans_db.Storage.Order.{◌<l◌}
use trans_db.Storage.Rocks.{Rocks, Entry, seek}
use trans_db.Storage.Mvcc.{is_tombstone}

-- What the constructor is given.
pub record Range : Type 0 where
  pub table_id : ℕ
  pub start_pk : Bytes
  pub end_pk_exclusive : Bytes
  pub snapshot_ts : ℕ
  pub open_end_exclusive : Bool

-- `PrimaryKey`, `Value` and `ValueTimestamp` of the current row.
pub record Row : Type 0 where
  pub pk : Bytes
  pub value : Bytes
  pub write_ts : ℕ

pub record MvccIterator : Type 0 where
  pub rest : List Entry
  pub valid : Bool
  pub current : Row

-- The key is one of the table and the primary key.
unfoldable pub is_of : ℕ → Bytes → DecodedKey → Bool
is_of table_id pk d = (d.table_id == table_id) && (d.primary_key =l= pk)

-- The loops that pass by the other versions of a primary key.
unfoldable pub skip_pk : ℕ → Bytes → List Entry → List Entry
unfolding is_of
skip_pk table_id pk [] = []
skip_pk table_id pk ((k, v) ∷ l) = elim (decode_key k) [
  | none ↦ (k, v) ∷ l
  | some d ↦ let later = skip_pk table_id pk l in if is_of table_id pk d then later else (k, v) ∷ l
]

-- The loop that looks for the newest version of a primary key that the snapshot sees.
unfoldable pub find_visible : ℕ → Bytes → ℕ → List Entry → Option Row × List Entry
unfolding is_of
find_visible table_id pk snapshot_ts [] = (none, [])
find_visible table_id pk snapshot_ts ((k, v) ∷ l) = elim (decode_key k) [
  | none ↦ (none, (k, v) ∷ l)
  | some d ↦
      let later = find_visible table_id pk snapshot_ts l in
      if is_of table_id pk d
      then (if leb d.write_ts snapshot_ts
          then (some (record { pk = pk; value = v; write_ts = d.write_ts }), (k, v) ∷ l)
          else later)
      else (none, (k, v) ∷ l)
]

-- A key at which the loop ends.
unfoldable pub is_past : Range → DecodedKey → Bool
is_past q d =
    not (d.table_id == q.table_id)
    || (not q.open_end_exclusive && not (d.primary_key <l q.end_pk_exclusive))

-- A key that is passed by.
unfoldable pub is_before : Range → DecodedKey → Bool
is_before q d = not (length q.start_pk == 0) && (d.primary_key <l q.start_pk)

-- The loop of `Advance`, on fuel: the row it stops at, if any, and what is left to visit.
unfoldable pub advance_loop : Range → ℕ → List Entry → Option Row × List Entry
unfolding is_past is_before is_tombstone
advance_loop q zero l = (none, l)
advance_loop q (suc f) [] = (none, [])
advance_loop q (suc f) ((k, v) ∷ l) = elim (decode_key k) [
  | none ↦ advance_loop q f l
  | some d ↦
      let found = find_visible q.table_id d.primary_key q.snapshot_ts ((k, v) ∷ l) in
      let before = advance_loop q f l in
      let unseen = advance_loop q f found.1 in
      let behind = skip_pk q.table_id d.primary_key found.1 in
      let deleted = advance_loop q f behind in
      if is_past q d
      then (none, (k, v) ∷ l)
      else if is_before q d
      then before
      else (elim (found.0) [
        | none ↦ unseen
        | some row ↦ if is_tombstone row.value then deleted else (some row, behind)
      ])
]

-- `Advance`; each round leaves fewer entries than it finds.
unfoldable pub advance : Range → MvccIterator → MvccIterator
advance q it =
    let (row, rest) = advance_loop q (suc (length it.rest)) it.rest in
    elim row [
      | none ↦ record it { rest = rest; valid = false }
      | some r ↦ record { rest = rest; valid = true; current = r }
    ]

-- `Next`
unfoldable pub next : Range → MvccIterator → MvccIterator
next q it = elim (it.rest) [
  | [] ↦ record it { valid = false }
  | (k, v) ∷ l ↦ elim (decode_key k) [
    | none ↦ record it { valid = false }
    | some d ↦
        if d.table_id == q.table_id
        then advance q (record it { rest = skip_pk q.table_id it.current.pk it.rest })
        else record it { valid = false }
  ]
]

module _ (R : Rocks) where
  -- The constructor, and so `MVCCStore::Scan`.
  unfoldable pub scan_store : R.Db → Range → MvccIterator
  scan_store d q = advance q (record {
    rest = seek (encode_key_prefix_newest q.table_id q.start_pk) (R.entries d);
    valid = false;
    current = record { pk = []; value = []; write_ts = 0 };
  })

-- The rows that `Valid` and `Next` give a client, one after the other.
unfoldable pub drain : Range → ℕ → MvccIterator → List Row
drain q zero it = []
drain q (suc f) it =
    let later = drain q f (next q it) in if it.valid then it.current ∷ later else []
