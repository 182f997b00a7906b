-- ===== src/Storage/Hidden.antt =====
-- Primary keys of several lengths: a longer key stands between the target of the seek and the versions
-- of its prefix, and `Get` stops at it.
use trans_db.Prelude.{
  ℕ, ◌-◌, ◌*◌, ◌<◌, ◌^◌, ◌≡◌, ◌≢◌, refl, sym, ap, ap₂, ◌∙◌, inl, inr, true, false, ◌&&◌, none, some,
  List, [], ◌∷◌, ◌++◌, length, ◌==◌, ◌=l=◌, All, All-map, arith, Bool-cases, =l=_iff, ==_iff,
  length-append, append_assoc,
}
use trans_db.Bytes.{Bytes, u32_mod, u64_mod, append_be}
use trans_db.Storage.Key.{
  encode_key, encode_key_prefix_newest, invert_timestamp, decode_key-encode_key, length-encode_key,
}
use trans_db.Storage.Order.{◌<l◌, <l-append, <l-append_be, <l_trans}
use trans_db.Storage.Rocks.{Rocks, Entry, IsSorted, lookup, seek}
use trans_db.Storage.Mvcc.{get_loop, get}
use trans_db.Storage.Seek.{lookup_after, seek-IsSorted, seek-All, lookup-seek, entries_found}

-- A key that the store wrote at a timestamp below 2^56, as the timestamp oracle gives them out.
pub record Written (k : Bytes) : Type 0 where
  pub table : ℕ
  pub pk : Bytes
  pub ts : ℕ
  pub key_eq : k ≡ encode_key table pk ts
  pub table_fits : table < u32_mod
  pub ts_fits : ts < 2 ^ 56

abbrev lowest : ℕ
lowest = 255 * 2 ^ 56

below_lowest : (c : ℕ) (rest : Bytes) → c < 255 → ((c ∷ rest) <l append_be 8 lowest) ≡ true
unfolding ◌<l◌ append_be
below_lowest c rest lt = ground arith

-- The first byte of such a timestamp, inverted, is 255.
tail_after :
    (ts c : ℕ) (rest : Bytes)
    → ts < 2 ^ 56
    → c < 255
    → (append_be 8 (invert_timestamp ts) <l (c ∷ rest)) ≡ false
tail_after ts c rest h lt = elim (Bool-cases (append_be 8 (invert_timestamp ts) <l (c ∷ rest))) [
  | inl before ↦ cc (
    <l_trans (append_be 8 (invert_timestamp ts)) (c ∷ rest) (append_be 8 lowest) before
        (below_lowest c rest lt),
    at_or_past,
  )
  | inr after ↦ after
]
  where
    at_or_past : (append_be 8 (invert_timestamp ts) <l append_be 8 lowest) ≡ false
    at_or_past =
        unfold invert_timestamp in
        <l-append_be 8 (u64_mod - 1 - ts) lowest (omega arith) (omega arith) ∙ ground arith

-- So a version of the key stands behind every version of a longer key.
longer_first :
    (tid : ℕ) (key : Bytes) (c : ℕ) (s : Bytes) (ts u : ℕ)
    → ts < 2 ^ 56
    → c < 255
    → (encode_key tid key ts <l encode_key tid (key ++ c ∷ s) u) ≡ false
unfolding encode_key
longer_first tid key c s ts u h lt =
    <l-append (append_be 4 tid) (key ++ append_be 8 (invert_timestamp ts))
      ((key ++ c ∷ s) ++ append_be 8 (invert_timestamp u))
    ∙ ap (λ b. (key ++ append_be 8 (invert_timestamp ts)) <l b)
        (append_assoc key (c ∷ s) (append_be 8 (invert_timestamp u)))
    ∙ <l-append key (append_be 8 (invert_timestamp ts))
        (c ∷ (s ++ append_be 8 (invert_timestamp u)))
    ∙ tail_after ts c (s ++ append_be 8 (invert_timestamp u)) h lt

get_loop_stops :
    (tid : ℕ) (key : Bytes) (c : ℕ) (s : Bytes) (u snap : ℕ) (x : Bytes) (l : List Entry)
    → c < 255
    → IsSorted l
    → All (λ (p : Entry). Written p.0) l
    → lookup (encode_key tid (key ++ c ∷ s) u) l ≡ some x
    → get_loop tid key snap l ≡ none
unfolding get_loop
get_loop_stops tid key c s u snap x [] lt sorted written found = refl
get_loop_stops tid key c s u snap x ((k, v) ∷ l) lt sorted written found =
    rw
      (
        w.key_eq,
        decode_key-encode_key w.table w.pk w.ts w.table_fits
            (let h : w.ts < 2 ^ 56 = w.ts_fits in omega arith),
        get_loop,
      )
      (elim (Bool-cases ((w.table == tid) && (w.pk =l= key))) [
        | inl same ↦ absurd (not_key (ground arith) (ground arith))
        | inr other ↦ rw other
      ])
  where
    w : Written k
    w = written.0

    longer : Bytes
    longer = encode_key tid (key ++ c ∷ s) u

    not_key : (w.table == tid) ≡ true → (w.pk =l= key) ≡ true → ⊥
    not_key et ep = elim (Bool-cases (k =l= longer)) [
      | inl eq ↦ omega (
        arith,
        ap length (sym is_key ∙ (=l=_iff k longer).0 eq),
        length-encode_key tid key w.ts,
        length-encode_key tid (key ++ c ∷ s) u,
        length-append key (c ∷ s),
      )
      | inr ne ↦ cc (
        lookup_after longer l x k sorted.0 (unfold lookup in rw ne at found),
        longer_first tid key c s w.ts u w.ts_fits lt,
        is_key,
      )
    ]
      where
        is_key : k ≡ encode_key tid key w.ts
        is_key =
            w.key_eq
            ∙ ap₂ (λ t p. encode_key t p w.ts) ((==_iff w.table tid).0 et) ((=l=_iff w.pk key).0 ep)

seek_reaches :
    (tid : ℕ) (key : Bytes) (c : ℕ) (s : Bytes) (u : ℕ)
    → 0 < c
    → (encode_key tid (key ++ c ∷ s) u <l encode_key_prefix_newest tid key) ≡ false
unfolding encode_key_prefix_newest encode_key
seek_reaches tid key c s u pos =
    <l-append (append_be 4 tid) ((key ++ c ∷ s) ++ append_be 8 (invert_timestamp u)) (key ++ zeros)
    ∙ ap (λ b. b <l (key ++ zeros)) (append_assoc key (c ∷ s) (append_be 8 (invert_timestamp u)))
    ∙ <l-append key (c ∷ (s ++ append_be 8 (invert_timestamp u))) zeros
    ∙ unfold ◌<l◌ append_be invert_timestamp in ground arith
  where
    zeros : Bytes
    zeros = append_be 8 (invert_timestamp (u64_mod - 1))

-- If a key of the table that extends `key` by a byte between 1 and 254 is stored, at any
-- timestamp, and all timestamps are below 2^56, then `Get` of `key` reports `NotFound` in every
-- snapshot, whatever versions of `key` are stored.
pub get_hidden :
    (R : Rocks) (d : R.Db) (tid : ℕ) (key : Bytes) (c : ℕ) (s : Bytes) (u snap : ℕ) (x : Bytes)
    → 0 < c
    → c < 255
    → ((k : Bytes) → lookup k (R.entries d) ≢ none → Written k)
    → lookup (encode_key tid (key ++ c ∷ s) u) (R.entries d) ≡ some x
    → get R d tid key snap ≡ none
unfolding get
get_hidden R d tid key c s u snap x pos lt written found =
    get_loop_stops tid key c s u snap x (seek start l) lt
      (seek-IsSorted start l (R.entries_sorted d))
      (All-map _ _ (λ p h. written p.0 h) (seek start l) (seek-All _ start l (entries_found l)))
      (lookup-seek (encode_key tid (key ++ c ∷ s) u) start l (seek_reaches tid key c s u pos)
        ∙ found)
  where
    l : List Entry
    l = R.entries d

    start : Bytes
    start = encode_key_prefix_newest tid key
