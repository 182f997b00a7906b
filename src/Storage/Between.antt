-- ===== src/Storage/Between.antt =====
-- The rows of a range, for the iterator of src/storage/mvcc_iterator.cpp: the entries up to the first key
-- that lies behind the range, and of those the versions in sight.
use trans_db.Prelude.{
  ℕ, ◌≡◌, refl, Bool, true, false, ◌&&◌, ◌||◌, not, Option, none, some, List, [], ◌∷◌, ltb, length,
  ◌==◌, ◌=l=◌, if◌then◌else◌, arith, inl, inr, Bool-cases, Option-cases, =l=_iff,
}
use trans_db.Bytes.{Bytes}
use trans_db.Storage.Key.{DecodedKey, decode_key}
use trans_db.Storage.Order.{◌<l◌}
use trans_db.Storage.Rocks.{Entry}
use trans_db.Storage.Mvcc.{is_tombstone}
use trans_db.Storage.Iterator.{Range, Row, is_of, is_past, is_before}
use trans_db.Storage.Scanned.{rows_of, is_decided}

-- Whether a key is of the table and does not reach the range's end.
unfoldable pub is_within : Range → ℕ → Bytes → Bool
is_within q table_id pk =
    (table_id == q.table_id) && (q.open_end_exclusive || (pk <l q.end_pk_exclusive))

-- The entries before the first that is of another table or reaches the end of the range. The order of the
-- store is that of the encoded keys, so that one with a primary key of another length can come early.
unfoldable pub upto_end : Range → List Entry → List (DecodedKey × Bytes)
upto_end q [] = []
upto_end q ((k, v) ∷ l) = elim (decode_key k) [
  | none ↦ []
  | some d ↦
      let rest = upto_end q l in if is_within q d.table_id d.primary_key then (d, v) ∷ rest else []
]

unfoldable pub has_pk : Option Bytes → Bytes → Bool
has_pk none pk = false
has_pk (some decided) pk = pk =l= decided

-- Of each primary key from the start of the range on, the first version in the snapshot, unless it is a
-- deletion; `decided` is the primary key that has had its version.
unfoldable pub first_versions : Range → Option Bytes → List (DecodedKey × Bytes) → List Row
unfolding has_pk
first_versions q decided [] = []
first_versions q decided ((d, v) ∷ l) =
    let same = first_versions q decided l in
    let taken = first_versions q (some d.primary_key) l in
    let later = first_versions q none l in
    if has_pk decided d.primary_key
    then same
    else if d.primary_key <l q.start_pk
    then later
    else if ltb q.snapshot_ts d.write_ts
    then later
    else if is_tombstone v
    then taken
    else record { pk = d.primary_key; value = v; write_ts = d.write_ts } ∷ taken

empty_least : (pk start : Bytes) → (length start == 0) ≡ true → (pk <l start) ≡ false
unfolding ◌<l◌
empty_least [] [] h = refl
empty_least (b ∷ pk) [] h = refl
empty_least pk (b ∷ start) h = absurd (ground (arith, h))

before_start : (q : Range) (d : DecodedKey) → is_before q d ≡ (d.primary_key <l q.start_pk)
unfolding is_before
before_start q d = elim (Bool-cases (length q.start_pk == 0)) [
  | inl e ↦ ground (arith, e, empty_least d.primary_key q.start_pk e)
  | inr e ↦ ground (arith, e)
]

past_end : (q : Range) (d : DecodedKey) → is_past q d ≡ not (is_within q d.table_id d.primary_key)
unfolding is_past is_within
past_end q d = ground arith

-- A primary key that has had its version lies within the range.
abbrev IsInside : Range → Option Bytes → Type 0
IsInside q none = Unit
IsInside q (some pk) = is_within q q.table_id pk ≡ true

module _ (q : Range) (d : DecodedKey) where
  decided_within :
      (decided : Option Bytes)
      → IsInside q decided
      → is_decided q decided d ≡ true
      → (is_within q d.table_id d.primary_key ≡ true) × (has_pk decided d.primary_key ≡ true)
  unfolding is_decided is_of has_pk is_within
  decided_within none i h = absurd (ground (arith, h))
  decided_within (some pk) i h = ground (arith, h, i, =l=_iff d.primary_key pk)

  undecided :
      (decided : Option Bytes)
      → is_within q d.table_id d.primary_key ≡ true
      → is_decided q decided d ≡ false
      → has_pk decided d.primary_key ≡ false
  unfolding is_decided is_of has_pk is_within
  undecided none w h = refl
  undecided (some pk) w h = ground (arith, w, h)

  taken-IsInside : is_within q d.table_id d.primary_key ≡ true → IsInside q (some d.primary_key)
  unfolding is_within
  taken-IsInside w = ground (arith, w)

pub rows_of-first_versions :
    (q : Range) (decided : Option Bytes) (l : List Entry)
    → IsInside q decided
    → rows_of q decided l ≡ first_versions q decided (upto_end q l)
unfolding rows_of upto_end first_versions
rows_of-first_versions q decided [] i = refl
rows_of-first_versions q decided ((k, v) ∷ l) i = elim (Option-cases (decode_key k)) [
  | inl e ↦ ground (arith, e)
  | inr (d, e) ↦ elim (Bool-cases (is_decided q decided d)) [
    | inl s ↦
        ground (arith, e, s, decided_within q d decided i s, rows_of-first_versions q decided l i)
    | inr s ↦ elim (Bool-cases (is_within q d.table_id d.primary_key)) [
      | inr w ↦ ground (arith, e, s, w, past_end q d)
      | inl w ↦ ground (
        arith,
        e,
        s,
        w,
        past_end q d,
        before_start q d,
        undecided q d decided w s,
        rows_of-first_versions q none l tt,
        rows_of-first_versions q (some d.primary_key) l (taken-IsInside q d w),
      )
    ]
  ]
]
