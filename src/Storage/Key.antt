-- ===== src/Storage/Key.antt =====
-- src/storage/key_encoding.cpp: table, primary key and inverted timestamp in one byte string.
use trans_db.Prelude.{
  ℕ, ◌+◌, ◌-◌, ◌<◌, ◌≡◌, refl, sym, ap, ◌∙◌, Option, none, some, [], ◌++◌, length, take, drop, ltb,
  if◌then◌else◌, arith, append_assoc, append-nil, length-append, take-append_exact,
  drop-append_exact,
}
use trans_db.Bytes.{Bytes, u32_mod, u64_mod, append_be, read_be}
use trans_db.Bytes.RoundTrip.{length-append_be, read_be-append_be}

-- `~write_ts`
unfoldable pub invert_timestamp : ℕ → ℕ
invert_timestamp write_ts = u64_mod - 1 - write_ts

unfoldable pub encode_key : ℕ → Bytes → ℕ → Bytes
encode_key table_id primary_key write_ts =
    append_be 4 table_id ++ (primary_key ++ append_be 8 (invert_timestamp write_ts))

unfoldable pub encode_key_prefix_newest : ℕ → Bytes → Bytes
encode_key_prefix_newest table_id primary_key = encode_key table_id primary_key (u64_mod - 1)

unfoldable pub encode_pk_span_end : ℕ → Bytes → Bytes
encode_pk_span_end table_id end_pk_exclusive = append_be 4 table_id ++ end_pk_exclusive

pub record DecodedKey : Type 0 where
  pub table_id : ℕ
  pub primary_key : Bytes
  pub write_ts : ℕ

unfoldable pub decode_key : Bytes → Option DecodedKey
decode_key encoded =
    let pk_len = length encoded - 4 - 8 in
    if ltb (length encoded) 12
    then none
    else some (record {
      table_id = read_be 0 (take 4 encoded);
      primary_key = take pk_len (drop 4 encoded);
      write_ts = invert_timestamp (read_be 0 (take 8 (drop (4 + pk_len) encoded)));
    })

pub length-encode_key :
    (tid : ℕ) (pk : Bytes) (ts : ℕ) → length (encode_key tid pk ts) ≡ length pk + 12
unfolding encode_key
length-encode_key tid pk ts = omega (
  arith,
  length-append (append_be 4 tid) (pk ++ append_be 8 (invert_timestamp ts)),
  length-append pk (append_be 8 (invert_timestamp ts)),
  length-append_be 4 tid,
  length-append_be 8 (invert_timestamp ts),
)

pub invert-invert : (ts : ℕ) → ts < u64_mod → invert_timestamp (invert_timestamp ts) ≡ ts
unfolding invert_timestamp
invert-invert ts h = omega arith

drop-encode_key :
    (tid : ℕ) (pk : Bytes) (ts : ℕ)
    → drop (4 + length pk) (encode_key tid pk ts) ≡ append_be 8 (invert_timestamp ts)
unfolding encode_key
drop-encode_key tid pk ts =
    ap (drop (4 + length pk))
      (sym (append_assoc (append_be 4 tid) pk (append_be 8 (invert_timestamp ts))))
    ∙ drop-append_exact (4 + length pk) (append_be 4 tid ++ pk) (append_be 8 (invert_timestamp ts))
        (omega (arith, length-append (append_be 4 tid) pk, length-append_be 4 tid))

-- An encoded key decodes to the table, the primary key and the timestamp it was made of, if the
-- two numbers fit their 32 and 64 bits.
pub decode_key-encode_key :
    (tid : ℕ) (pk : Bytes) (ts : ℕ)
    → tid < u32_mod
    → ts < u64_mod
    → decode_key (encode_key tid pk ts)
      ≡ some (record { table_id = tid; primary_key = pk; write_ts = ts })
unfolding decode_key
decode_key-encode_key tid pk ts ht hs =
    ground (arith, length-encode_key tid pk ts, read-table, read-pk, read-ts)
  where
    inv : ℕ
    inv = invert_timestamp ts

    enc : Bytes
    enc = encode_key tid pk ts

    read-table : read_be 0 (take 4 enc) ≡ tid
    read-table =
        unfold encode_key in
        ap (read_be 0)
          (take-append_exact 4 (append_be 4 tid) (pk ++ append_be 8 inv) (length-append_be 4 tid))
        ∙ read_be-append_be 4 tid ht

    pk_len : length enc - 4 - 8 ≡ length pk
    pk_len = omega (arith, length-encode_key tid pk ts)

    read-pk : take (length enc - 4 - 8) (drop 4 enc) ≡ pk
    read-pk =
        ap (λ k. take k (drop 4 enc)) pk_len
        ∙ unfold encode_key in
          ap (take (length pk))
            (drop-append_exact 4 (append_be 4 tid) (pk ++ append_be 8 inv) (length-append_be 4 tid))
          ∙ take-append_exact (length pk) pk (append_be 8 inv) refl

    inv_fits : inv < u64_mod
    inv_fits = unfold invert_timestamp in omega arith

    read-ts : invert_timestamp (read_be 0 (take 8 (drop (4 + (length enc - 4 - 8)) enc))) ≡ ts
    read-ts =
        ap (λ k. invert_timestamp (read_be 0 (take 8 (drop (4 + k) enc)))) pk_len
        ∙ ap (λ b. invert_timestamp (read_be 0 (take 8 b))) (drop-encode_key tid pk ts)
        ∙ ap (λ b. invert_timestamp (read_be 0 (take 8 b))) (sym (append-nil (append_be 8 inv)))
        ∙ ap (λ b. invert_timestamp (read_be 0 b))
            (take-append_exact 8 (append_be 8 inv) [] (length-append_be 8 inv))
        ∙ ap invert_timestamp (read_be-append_be 8 inv inv_fits)
        ∙ invert-invert ts hs
