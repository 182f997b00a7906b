-- ===== src/Storage/Scanned.antt =====
-- The iterator of src/storage/mvcc_iterator.cpp against one pass over the entries.
use trans_db.Prelude.{
  ℕ, ◌<◌, ◌≤◌, ◌≡◌, ◌≢◌, refl, Bool, true, false, ◌&&◌, not, Option, none, some, List, [], ◌∷◌,
  length, leb, ◌==◌, if◌then◌else◌, All, arith, inl, inr, Bool-cases, Option-cases, =l=_iff,
}
use trans_db.Bytes.{Bytes}
use trans_db.Storage.Key.{DecodedKey, decode_key}
use trans_db.Storage.Order.{◌<l◌}
use trans_db.Storage.Rocks.{Entry}
use trans_db.Storage.Mvcc.{is_tombstone}
use trans_db.Storage.Iterator.{Range, Row, is_of, skip_pk, find_visible, is_past, is_before}

-- Every key is one that decodes.
abbrev pub Decodes : List Entry → Type 0
Decodes l = All (λ (p : Entry). decode_key p.0 ≢ none) l

-- `decided` is the primary key of which a version has been taken, or a deletion seen.
unfoldable pub is_decided : Range → Option Bytes → DecodedKey → Bool
is_decided q none d = false
is_decided q (some pk) d = is_of q.table_id pk d

-- The rows in one pass: of each primary key of the range, the first version in sight, unless that is a
-- deletion.
unfoldable pub rows_of : Range → Option Bytes → List Entry → List Row
unfolding is_decided
rows_of q decided [] = []
rows_of q decided ((k, v) ∷ l) = elim (decode_key k) [
  | none ↦ []
  | some d ↦
      let same = rows_of q decided l in
      let taken = rows_of q (some d.primary_key) l in
      let later = rows_of q none l in
      if is_decided q decided d
      then same
      else if is_past q d
      then []
      else if is_before q d
      then later
      else if leb d.write_ts q.snapshot_ts
      then (if is_tombstone v
          then taken
          else record { pk = d.primary_key; value = v; write_ts = d.write_ts } ∷ taken)
      else later
]

pub skip_pk-length : (tid : ℕ) (pk : Bytes) (l : List Entry) → length (skip_pk tid pk l) ≤ length l
unfolding skip_pk
skip_pk-length tid pk [] = omega arith
skip_pk-length tid pk ((k, v) ∷ l) = ground (arith, skip_pk-length tid pk l)

pub skip_pk-Decodes :
    (tid : ℕ) (pk : Bytes) (l : List Entry) → Decodes l → Decodes (skip_pk tid pk l)
unfolding skip_pk
skip_pk-Decodes tid pk [] h = tt
skip_pk-Decodes tid pk ((k, v) ∷ l) h = elim (Option-cases (decode_key k)) [
  | inl e ↦ absurd (h.0 e)
  | inr (d, e) ↦ elim (Bool-cases (is_of tid pk d)) [
    | inl s ↦ rw (e, s, skip_pk) (skip_pk-Decodes tid pk l h.1)
    | inr s ↦ rw (e, s, skip_pk) h
  ]
]

pub skip-skip :
    (tid : ℕ) (pk : Bytes) (l : List Entry) → skip_pk tid pk (skip_pk tid pk l) ≡ skip_pk tid pk l
unfolding skip_pk
skip-skip tid pk [] = refl
skip-skip tid pk ((k, v) ∷ l) = elim (Option-cases (decode_key k)) [
  | inl e ↦ ground (arith, e)
  | inr (d, e) ↦ ground (arith, e, skip-skip tid pk l)
]

rows_of-skip :
    (q : Range) (pk : Bytes) (l : List Entry)
    → rows_of q (some pk) l ≡ rows_of q none (skip_pk q.table_id pk l)
unfolding skip_pk rows_of
rows_of-skip q pk [] = refl
rows_of-skip q pk ((k, v) ∷ l) = elim (Option-cases (decode_key k)) [
  | inl e ↦ ground (arith, e)
  | inr (d, e) ↦ ground (arith, e, rows_of-skip q pk l)
]

-- What `Advance` makes of what it has found for a primary key.
unfoldable pub after_found : Range → Bytes → Option Row → List Entry → List Row
after_found q pk none r = rows_of q none r
after_found q pk (some row) r =
    let rest = rows_of q none (skip_pk q.table_id pk r) in
    if is_tombstone row.value then rest else row ∷ rest

of_table :
    (tid : ℕ) (pk : Bytes) (d : DecodedKey) → is_of tid pk d ≡ true → (d.table_id == tid) ≡ true
unfolding is_of
of_table tid pk d h = ground (arith, h)

of_pk : (tid : ℕ) (pk : Bytes) (d : DecodedKey) → is_of tid pk d ≡ true → d.primary_key ≡ pk
unfolding is_of
of_pk tid pk d h = (=l=_iff d.primary_key pk).0 (ground (arith, h))

module _ (q : Range) (pk : Bytes)
    (in_end : (not q.open_end_exclusive && not (pk <l q.end_pk_exclusive)) ≡ false)
    (in_start : (not (length q.start_pk == 0) && (pk <l q.start_pk)) ≡ false) where
  of_past : (d : DecodedKey) → is_of q.table_id pk d ≡ true → is_past q d ≡ false
  unfolding is_past
  of_past d h = rw (of_pk q.table_id pk d h, of_table q.table_id pk d h) in_end

  of_before : (d : DecodedKey) → is_of q.table_id pk d ≡ true → is_before q d ≡ false
  unfolding is_before
  of_before d h = rw (of_pk q.table_id pk d h) in_start

  pub rows_of-find :
      (l : List Entry)
      → rows_of q none l
        ≡ after_found q pk
            (find_visible q.table_id pk q.snapshot_ts l).0
            (find_visible q.table_id pk q.snapshot_ts l).1
  unfolding rows_of find_visible after_found is_decided
  rows_of-find [] = refl
  rows_of-find ((k, v) ∷ l) = elim (Option-cases (decode_key k)) [
    | inl e ↦ ground (arith, e)
    | inr (d, e) ↦ elim (Bool-cases (is_of q.table_id pk d)) [
      | inl s ↦ ground (
        arith,
        e,
        s,
        of_past d s,
        of_before d s,
        of_pk q.table_id pk d s,
        rows_of-find l,
        rows_of-skip q pk l,
        skip_here k v l d e s,
      )
      | inr s ↦ ground (arith, e, s)
    ]
  ]
    where
      skip_here :
          (k v : Bytes) (l : List Entry) (d : DecodedKey)
          → decode_key k ≡ some d
          → is_of q.table_id pk d ≡ true
          → skip_pk q.table_id pk ((k, v) ∷ l) ≡ skip_pk q.table_id pk l
      skip_here k v l d e s = unfold skip_pk in ground (arith, e, s)

-- The search leaves no more than it finds, and of an entry of the primary key that it does not take, less.
pub find-length :
    (tid : ℕ) (pk : Bytes) (snap : ℕ) (l : List Entry)
    → length (find_visible tid pk snap l).1 ≤ length l
unfolding find_visible
find-length tid pk snap [] = omega arith
find-length tid pk snap ((k, v) ∷ l) = ground (arith, find-length tid pk snap l)

pub find-Decodes :
    (tid : ℕ) (pk : Bytes) (snap : ℕ) (l : List Entry)
    → Decodes l
    → Decodes (find_visible tid pk snap l).1
unfolding find_visible
find-Decodes tid pk snap [] h = tt
find-Decodes tid pk snap ((k, v) ∷ l) h = elim (Option-cases (decode_key k)) [
  | inl e ↦ absurd (h.0 e)
  | inr (d, e) ↦ elim (Bool-cases (is_of tid pk d)) [
    | inl s ↦ elim (Bool-cases (leb d.write_ts snap)) [
      | inl t ↦ rw (e, s, t, find_visible) h
      | inr t ↦ rw (e, s, t, find_visible) (find-Decodes tid pk snap l h.1)
    ]
    | inr s ↦ rw (e, s, find_visible) h
  ]
]

-- What the loop of `Advance` comes to: the next row of the pass and the entries behind it.
unfoldable pub Advanced : Range → List Entry → Option Row → List Entry → Type 0
Advanced q l none r = rows_of q none l ≡ []
Advanced q l (some row) r =
    (rows_of q none l ≡ row ∷ rows_of q none r)
    × (length r < length l)
    × (skip_pk q.table_id row.pk r ≡ r)
    × Decodes r
