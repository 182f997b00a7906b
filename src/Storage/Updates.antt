-- ===== src/Storage/Updates.antt =====
-- What `Get` returns after `Put` and `Delete`.
use trans_db.Prelude.{
  ℕ, ◌<◌, ◌≤◌, ◌≡◌, refl, sym, ◌∙◌, inl, inr, true, false, none, some, length, ◌=l=◌, if◌then◌else◌,
  arith, Bool-cases, =l=_iff, =l=_refl,
}
use trans_db.Bytes.{Bytes, u32_mod, u64_mod}
use trans_db.Storage.Key.{encode_key}
use trans_db.Storage.Order.{◌<l◌, <l_irrefl, newer_first}
use trans_db.Storage.Rocks.{Rocks, lookup}
use trans_db.Storage.Mvcc.{is_tombstone, get, put, delete, tombstone}
use trans_db.Storage.Visible.{FixedWidth, get_newest}

-- A write of a key of the right length keeps the table's primary keys at one length.
pub put-FixedWidth :
    (R : Rocks) (d : R.Db) (tid : ℕ) (key : Bytes) (ts : ℕ) (v : Bytes)
    → tid < u32_mod
    → ts < u64_mod
    → FixedWidth tid (length key) (R.entries d)
    → FixedWidth tid (length key) (R.entries (put R d tid key ts v true).0)
unfolding put
put-FixedWidth R d tid key ts v ht hs stored k found =
    elim (Bool-cases (encode_key tid key ts =l= k)) [
      | inl same ↦
          let e : encode_key tid key ts ≡ k = (=l=_iff (encode_key tid key ts) k).0 same in
          record {
            table = tid;
            pk = key;
            ts = ts;
            key_eq = sym e;
            table_fits = ht;
            ts_fits = hs;
            same_width = λ _. refl;
          }
      | inr other ↦ stored k (λ e. found (R.lookup-put d (encode_key tid key ts) v k ∙ rw other e))
    ]

versions_differ :
    (tid : ℕ) (key : Bytes) (ts u : ℕ)
    → ts < u64_mod
    → u < u64_mod
    → ts < u
    → (encode_key tid key ts =l= encode_key tid key u) ≡ false
versions_differ tid key ts u hs hu lt =
    elim (Bool-cases (encode_key tid key ts =l= encode_key tid key u)) [
      | inl same ↦
          let e : encode_key tid key ts ≡ encode_key tid key u =
            (=l=_iff (encode_key tid key ts) (encode_key tid key u)).0 same in
          let before : (encode_key tid key u <l encode_key tid key ts) ≡ true =
            newer_first tid key u ts hu hs ∙ ground arith in
          cc (before, <l_irrefl (encode_key tid key u), e)
      | inr other ↦ other
    ]

-- Where all stored keys of the table have primary keys of one length, and no newer version of the
-- key lies in the snapshot, `Get` at a snapshot at or after the timestamp of a successful `Put`
-- gives the value and the timestamp; for the value of one zero byte it gives `NotFound`.
pub get-put :
    (R : Rocks) (d : R.Db) (tid : ℕ) (key : Bytes) (ts snap : ℕ) (v : Bytes)
    → tid < u32_mod
    → ts ≤ snap
    → snap < u64_mod
    → FixedWidth tid (length key) (R.entries d)
    → ((u : ℕ) → ts < u → u ≤ snap → lookup (encode_key tid key u) (R.entries d) ≡ none)
    → get R (put R d tid key ts v true).0 tid key snap
      ≡ (if is_tombstone v then none else some (v, ts))
unfolding put
get-put R d tid key ts snap v ht le fits stored newest =
    get_newest R (R.put d (encode_key tid key ts) v) tid key snap ts v ht (omega arith) le
      (unfold put in put-FixedWidth R d tid key ts v ht (omega arith) stored)
      (R.lookup-put d (encode_key tid key ts) v (encode_key tid key ts)
        ∙ rw (=l=_refl (encode_key tid key ts)))
      (λ u lt u_le.
        R.lookup-put d (encode_key tid key ts) v (encode_key tid key u)
        ∙ rw (versions_differ tid key ts u (omega arith) (omega arith) lt) (newest u lt u_le))

-- Where all stored keys of the table have primary keys of one length, and no newer version of the
-- key lies in the snapshot, `Get` at a snapshot at or after the timestamp of a successful `Delete`
-- gives `NotFound`.
pub get-delete :
    (R : Rocks) (d : R.Db) (tid : ℕ) (key : Bytes) (ts snap : ℕ)
    → tid < u32_mod
    → ts ≤ snap
    → snap < u64_mod
    → FixedWidth tid (length key) (R.entries d)
    → ((u : ℕ) → ts < u → u ≤ snap → lookup (encode_key tid key u) (R.entries d) ≡ none)
    → get R (delete R d tid key ts true).0 tid key snap ≡ none
unfolding delete
get-delete R d tid key ts snap ht le fits stored newest =
    unfold put is_tombstone in get-put R d tid key ts snap tombstone ht le fits stored newest
