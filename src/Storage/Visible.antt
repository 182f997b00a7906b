-- ===== src/Storage/Visible.antt =====
-- What `Get` returns where the primary keys of a table have one length: the newest version in the
-- snapshot.
use trans_db.Prelude.{
  ℕ, ◌+◌, ◌-◌, ◌<◌, ◌≤◌, ◌≡◌, ◌≢◌, sym, ap, ap₂, ◌∙◌, inl, inr, true, false, none, some, List, [],
  ◌∷◌, ◌++◌, length, take, drop, ltb, ◌=l=◌, if◌then◌else◌, All, All-map, All-zip, arith,
  append_assoc, Bool-cases, =l=_iff, =l=_refl, ==_refl, lt→leb, length-append, take-append_exact,
  drop-append_exact, take-take,
}
use trans_db.Bytes.{Bytes, u32_mod, u64_mod, append_be, read_be}
use trans_db.Bytes.RoundTrip.{length-append_be, read_be-append_be}
use trans_db.Storage.Key.{
  encode_key, encode_key_prefix_newest, decode_key-encode_key, invert_timestamp,
}
use trans_db.Storage.Order.{◌<l◌, prefix_between, newer_first}
use trans_db.Storage.Rocks.{Rocks, Entry, IsSorted, lookup, seek}
use trans_db.Storage.Mvcc.{is_tombstone, get_loop, get}
use trans_db.Storage.Seek.{
  lookup_after, seek-IsSorted, seek-All, seek_from, lookup-seek, entries_found,
}

-- A key that the store wrote, of a table whose primary keys have the length `width`.
pub record Stored (tid width : ℕ) (k : Bytes) : Type 0 where
  pub table : ℕ
  pub pk : Bytes
  pub ts : ℕ
  pub key_eq : k ≡ encode_key table pk ts
  pub table_fits : table < u32_mod
  pub ts_fits : ts < u64_mod
  pub same_width : table ≡ tid → length pk ≡ width

-- Everything stored is a key of the store, and the primary keys of the table have one length.
abbrev pub FixedWidth : ℕ → ℕ → List Entry → Type 0
FixedWidth tid width l = (k : Bytes) → lookup k l ≢ none → Stored tid width k

module _ (tid : ℕ) (key : Bytes) (snap : ℕ) (tid_fits : tid < u32_mod) where
  -- A version that stands before the one that is wanted: it is newer than the snapshot.
  Newer : ℕ → Bytes → Type 0
  Newer w k =
      (k <l encode_key tid key w) ≡ true
      → (u : ℕ) × (k ≡ encode_key tid key u) × (u < u64_mod) × (snap < u)

  get_loop_hit :
      (w : ℕ) (x : Bytes) (l : List Entry)
      → w < u64_mod
      → w ≤ snap
      → get_loop tid key snap ((encode_key tid key w, x) ∷ l)
        ≡ (if is_tombstone x then none else some (x, w))
  unfolding get_loop
  get_loop_hit w x l fits le =
      rw (decode_key-encode_key tid key w tid_fits fits, get_loop) (ground (arith, =l=_refl key))

  get_loop_skip :
      (u : ℕ) (x : Bytes) (l : List Entry)
      → u < u64_mod
      → snap < u
      → get_loop tid key snap ((encode_key tid key u, x) ∷ l) ≡ get_loop tid key snap l
  unfolding get_loop
  get_loop_skip u x l fits le =
      rw (decode_key-encode_key tid key u tid_fits fits, get_loop)
        (rw (==_refl tid, =l=_refl key, lt→leb u snap le))

  get_loop-newest :
      (w : ℕ) (v : Bytes) (l : List Entry)
      → w < u64_mod
      → w ≤ snap
      → IsSorted l
      → lookup (encode_key tid key w) l ≡ some v
      → All (λ (p : Entry). Newer w p.0) l
      → get_loop tid key snap l ≡ (if is_tombstone v then none else some (v, w))
  unfolding lookup Newer
  get_loop-newest w v [] fits le s h a = cc
  get_loop-newest w v ((k, x) ∷ l) fits le s h a = elim (Bool-cases (k =l= encode_key tid key w)) [
    | inl e ↦
        let same : x ≡ v = ground arith in
        rw ((=l=_iff k (encode_key tid key w)).0 e, get_loop_hit w x l fits le, same)
    | inr e ↦
        let found : lookup (encode_key tid key w) l ≡ some v = ground arith in
        let newer = a.0 (lookup_after (encode_key tid key w) l v k s.0 found) in
        rw (newer.1, get_loop_skip newer.0 x l newer.2 newer.3)
          (get_loop-newest w v l fits le s.1 found a.1)
  ]

  prefix : Bytes
  prefix = append_be 4 tid ++ key

  encode_key_split : (w : ℕ) → encode_key tid key w ≡ prefix ++ append_be 8 (invert_timestamp w)
  unfolding encode_key prefix
  encode_key_split w = sym (append_assoc (append_be 4 tid) key (append_be 8 (invert_timestamp w)))

  length-prefix : length prefix ≡ length key + 4
  unfolding prefix
  length-prefix = omega (arith, length-append (append_be 4 tid) key, length-append_be 4 tid)

  -- A stored key between the target of the seek and a version of `key` is a version of `key`.
  same_key :
      (w : ℕ) (k : Bytes)
      → (s : Stored tid (length key) k) → (k <l encode_key_prefix_newest tid key) ≡ false
      → (k <l encode_key tid key w) ≡ true
      → k ≡ encode_key tid key s.ts
  unfolding encode_key_prefix_newest
  same_key w k s ge lt = s.key_eq ∙ ap₂ (λ t p. encode_key t p s.ts) table_eq pk_eq
    where
      tail : Bytes
      tail = append_be 8 (invert_timestamp s.ts)

      whole : k ≡ append_be 4 s.table ++ (s.pk ++ tail)
      whole = unfold encode_key in s.key_eq

      shared : take (length prefix) k ≡ prefix
      shared =
          prefix_between k prefix (append_be 8 (invert_timestamp (u64_mod - 1)))
            (append_be 8 (invert_timestamp w))
            (ap (λ b. k <l b) (sym (encode_key_split (u64_mod - 1))) ∙ ge)
            (ap (λ b. k <l b) (sym (encode_key_split w)) ∙ lt)

      first4 : append_be 4 s.table ≡ append_be 4 tid
      first4 =
          sym (
            ap (take 4) whole
            ∙ take-append_exact 4 (append_be 4 s.table) (s.pk ++ tail) (length-append_be 4 s.table))
          ∙ sym (take-take 4 (length prefix) k (omega (arith, length-prefix)))
          ∙ ap (take 4) shared
          ∙ unfold prefix in take-append_exact 4 (append_be 4 tid) key (length-append_be 4 tid)

      table_eq : s.table ≡ tid
      table_eq =
          sym (read_be-append_be 4 s.table s.table_fits)
          ∙ ap (read_be 0) first4
          ∙ read_be-append_be 4 tid tid_fits

      front : append_be 4 s.table ++ s.pk ≡ prefix
      front =
          sym (
            ap (take (length prefix)) (whole ∙ sym (append_assoc (append_be 4 s.table) s.pk tail))
            ∙ take-append_exact (length prefix) (append_be 4 s.table ++ s.pk) tail (
                omega (
                  arith,
                  length-append (append_be 4 s.table) s.pk,
                  length-append_be 4 s.table,
                  length-prefix,
                  s.same_width table_eq,
                )))
          ∙ shared

      pk_eq : s.pk ≡ key
      pk_eq =
          sym (drop-append_exact 4 (append_be 4 s.table) s.pk (length-append_be 4 s.table))
          ∙ ap (drop 4) front
          ∙ unfold prefix in drop-append_exact 4 (append_be 4 tid) key (length-append_be 4 tid)

  versions-Newer :
      (w : ℕ) (l : List Entry)
      → w < u64_mod
      → ((u : ℕ) → w < u → u ≤ snap → lookup (encode_key tid key u) l ≡ none)
      → (k : Bytes) → lookup k l ≢ none
      → Stored tid (length key) k
      → (k <l encode_key_prefix_newest tid key) ≡ false
      → Newer w k
  unfolding Newer
  versions-Newer w l w_fits newest k found s ge lt = (
    s.ts,
    e,
    s.ts_fits,
    elim (Bool-cases (ltb snap s.ts)) [
      | inl after ↦ ground arith
      | inr within ↦ absurd (found (ap (λ j. lookup j l) e ∙ newest s.ts newer (ground arith)))
    ],
  )
    where
      e : k ≡ encode_key tid key s.ts
      e = same_key w k s ge lt

      newer : w < s.ts
      newer =
          let o : ltb w s.ts ≡ true =
            sym (newer_first tid key s.ts w s.ts_fits w_fits)
            ∙ ap (λ j. j <l encode_key tid key w) (sym e)
            ∙ lt in
          ground arith

-- If every primary key of the table that is stored has the length of `key`, then `Get` returns the
-- newest version of `key` in the snapshot with its timestamp, or `NotFound` if that is a tombstone.
pub get_newest :
    (R : Rocks) (d : R.Db) (tid : ℕ) (key : Bytes) (snap w : ℕ) (v : Bytes)
    → tid < u32_mod
    → w < u64_mod
    → w ≤ snap
    → FixedWidth tid (length key) (R.entries d)
    → lookup (encode_key tid key w) (R.entries d) ≡ some v
    → ((u : ℕ) → w < u → u ≤ snap → lookup (encode_key tid key u) (R.entries d) ≡ none)
    → get R d tid key snap ≡ (if is_tombstone v then none else some (v, w))
unfolding get
get_newest R d tid key snap w v tid_fits w_fits le stored found newest =
    get_loop-newest tid key snap tid_fits w v (seek start l) w_fits le
      (seek-IsSorted start l (R.entries_sorted d))
      (lookup-seek (encode_key tid key w) start l at_or_past ∙ found) before
  where
    l : List Entry
    l = R.entries d

    start : Bytes
    start = encode_key_prefix_newest tid key

    at_or_past : (encode_key tid key w <l start) ≡ false
    at_or_past =
        unfold encode_key_prefix_newest in
        newer_first tid key w (u64_mod - 1) w_fits (omega arith) ∙ ground arith

    facts : All (λ (p : Entry). lookup p.0 l ≢ none) (seek start l)
    facts = seek-All _ start l (entries_found l)

    before : All (λ (p : Entry). Newer tid key snap tid_fits w p.0) (seek start l)
    before =
        All-map _ _
          (λ p h.
            versions-Newer tid key snap tid_fits w l w_fits newest p.0 h.0 (stored p.0 h.0) h.1)
          (seek start l) (All-zip _ _ (seek start l) facts (seek_from start l (R.entries_sorted d)))
