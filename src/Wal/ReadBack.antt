-- ===== src/Wal/ReadBack.antt =====
-- One record of the log, read back as what was written: src/txn/wal.cpp.
use trans_db.Prelude.{
  ℕ, ◌+◌, ◌-◌, ◌<◌, ◌^◌, ◌≡◌, refl, sym, ap, ◌∙◌, some, [], ◌∷◌, ◌++◌, length, take, drop, ◌>>=◌,
  arith, append_assoc, le→ltb, length-append, take-append_exact, drop-append_exact,
}
use trans_db.Bytes.{Bytes, append_le, read_le, read_at}
use trans_db.Bytes.RoundTrip.{length-append_le, read_le-append_le, read_at-append}
use trans_db.Bytes.Crc.{crc32_ieee, crc32_ieee-lt}
use trans_db.Wal.Record.{
  WalRecord, type_byte, crc_region, record_body, write_record, min_body, parse_body, record_chunk,
  parse_record, FitsRecord,
}

length-crc_region : (r : WalRecord) → length (crc_region r) ≡ length r.payload + 21
unfolding crc_region
length-crc_region r =
    let tail : Bytes = append_le 4 (length r.payload) ++ r.payload in
    omega (
      arith,
      length-append (append_le 8 r.lsn) (append_le 8 r.txn_id ++ (type_byte r.type ∷ tail)),
      length-append (append_le 8 r.txn_id) (type_byte r.type ∷ tail),
      length-append (append_le 4 (length r.payload)) r.payload,
      length-append_le 8 r.lsn,
      length-append_le 8 r.txn_id,
      length-append_le 4 (length r.payload),
    )

pub length-record_body : (r : WalRecord) → length (record_body r) ≡ length r.payload + min_body
unfolding record_body
length-record_body r = omega (
  arith,
  length-append (crc_region r) (append_le 4 (crc32_ieee (crc_region r))),
  length-crc_region r,
  length-append_le 4 (crc32_ieee (crc_region r)),
)

pub length-write_record : (r : WalRecord) → length (write_record r) ≡ length r.payload + 29
unfolding write_record
length-write_record r = omega (
  arith,
  length-append (append_le 4 (length (record_body r))) (record_body r),
  length-record_body r,
  length-append_le 4 (length (record_body r)),
)

-- The fields of a body, at the offsets where `ParseRecordsFromBytes` looks for them.
module _ (r : WalRecord) (fits : FitsRecord r) where
  crc_bytes : Bytes
  crc_bytes = append_le 4 (crc32_ieee (crc_region r))

  header : Bytes
  header = append_le 8 r.lsn ++ append_le 8 r.txn_id

  length-header : length header ≡ 16
  unfolding header
  length-header = omega (
    arith,
    length-append (append_le 8 r.lsn) (append_le 8 r.txn_id),
    length-append_le 8 r.lsn,
    length-append_le 8 r.txn_id,
  )

  -- A type byte is an integer of one byte.
  byte-append_le : type_byte r.type ∷ [] ≡ append_le 1 (type_byte r.type)
  unfolding append_le
  byte-append_le = ap (λ b. b ∷ []) (let h : type_byte r.type < 256 = fits.2 in omega arith)

  body_split :
      record_body r
      ≡ header
        ++ (append_le 1 (type_byte r.type)
            ++ (append_le 4 (length r.payload) ++ (r.payload ++ crc_bytes)))
  unfolding record_body crc_region crc_bytes header
  body_split = rw (← byte-append_le) (simp append_assoc)

  lsn_split :
      record_body r
      ≡ append_le 8 r.lsn
        ++ (append_le 8 r.txn_id
            ++ (append_le 1 (type_byte r.type)
                ++ (append_le 4 (length r.payload) ++ (r.payload ++ crc_bytes))))
  unfolding header
  lsn_split = body_split ∙ append_assoc (append_le 8 r.lsn) (append_le 8 r.txn_id) _

  read-lsn : read_at 0 8 (record_body r) ≡ r.lsn
  read-lsn = ap (read_at 0 8) lsn_split ∙ read_at-append 0 8 r.lsn [] _ refl fits.0

  read-txn_id : read_at 8 8 (record_body r) ≡ r.txn_id
  read-txn_id =
      ap (read_at 8 8) lsn_split
      ∙ read_at-append 8 8 r.txn_id (append_le 8 r.lsn) _ (length-append_le 8 r.lsn) fits.1

  read-type : read_at 16 1 (record_body r) ≡ type_byte r.type
  read-type =
      ap (read_at 16 1) body_split
      ∙ read_at-append 16 1 (type_byte r.type) header _ length-header fits.2

  read-payload_len : read_at 17 4 (record_body r) ≡ length r.payload
  read-payload_len =
      ap (read_at 17 4) (body_split ∙ sym (append_assoc header (append_le 1 (type_byte r.type)) _))
      ∙ read_at-append 17 4 (length r.payload) (header ++ append_le 1 (type_byte r.type)) _
          (omega (
            arith,
            length-append header (append_le 1 (type_byte r.type)),
            length-header,
            length-append_le 1 (type_byte r.type),
          ))
          (let h : length r.payload + min_body < 2 ^ 32 = fits.4 in omega arith)

  read-payload : take (length r.payload) (drop 21 (record_body r)) ≡ r.payload
  unfolding record_body
  read-payload =
      ap (λ b. take (length r.payload) (drop 21 b)) split
      ∙ ap (take (length r.payload)) (drop-append_exact 21 front (r.payload ++ crc_bytes) size)
      ∙ take-append_exact (length r.payload) r.payload crc_bytes refl
    where
      front : Bytes
      front = header ++ (append_le 1 (type_byte r.type) ++ append_le 4 (length r.payload))

      split : record_body r ≡ front ++ (r.payload ++ crc_bytes)
      split = body_split ∙ simp append_assoc

      size : length front ≡ 21
      size = omega (
        arith,
        length-append header (append_le 1 (type_byte r.type) ++ append_le 4 (length r.payload)),
        length-append (append_le 1 (type_byte r.type)) (append_le 4 (length r.payload)),
        length-header,
        length-append_le 1 (type_byte r.type),
        length-append_le 4 (length r.payload),
      )

  crc_cut : length (record_body r) - 4 ≡ length (crc_region r)
  crc_cut = omega (arith, length-record_body r, length-crc_region r)

  read-crc : read_le (drop (length (record_body r) - 4) (record_body r)) ≡ crc32_ieee (crc_region r)
  unfolding record_body crc_bytes
  read-crc =
      ap (λ k. read_le (drop k (record_body r))) crc_cut
      ∙ ap read_le (drop-append_exact (length (crc_region r)) (crc_region r) crc_bytes refl)
      ∙ read_le-append_le 4 (crc32_ieee (crc_region r)) (crc32_ieee-lt (crc_region r))

  read-region : take (length (record_body r) - 4) (record_body r) ≡ crc_region r
  unfolding record_body crc_bytes
  read-region =
      ap (λ k. take k (record_body r)) crc_cut
      ∙ take-append_exact (length (crc_region r)) (crc_region r) crc_bytes refl

  parse_body-record_body : parse_body (record_body r) ≡ some r
  unfolding parse_body
  parse_body-record_body = ground (
    arith,
    length-record_body r,
    read-lsn,
    read-txn_id,
    read-type,
    read-payload_len,
    read-payload,
    read-crc,
    read-region,
    fits.3,
  )

  record_chunk-write_record :
      (rest : Bytes) → record_chunk (write_record r ++ rest) ≡ some (record_body r, rest)
  unfolding record_chunk write_record
  record_chunk-write_record rest = rw (
    append_assoc (append_le 4 size) (record_body r) rest,
    le→ltb (length (append_le 4 size ++ (record_body r ++ rest))) 4 (
        omega (
          arith,
          length-append (append_le 4 size) (record_body r ++ rest),
          length-append_le 4 size,
        )),
    read_at-append 0 4 size [] (record_body r ++ rest) refl size_fits,
    le→ltb size min_body (omega (arith, length-record_body r)),
    drop-append_exact 4 (append_le 4 size) (record_body r ++ rest) (length-append_le 4 size),
    le→ltb (length (record_body r ++ rest)) size
        (omega (arith, length-append (record_body r) rest)),
    take-append_exact size (record_body r) rest refl,
    drop-append_exact size (record_body r) rest refl,
  )
    where
      size : ℕ
      size = length (record_body r)

      size_fits : size < 256 ^ 4
      size_fits =
          let h : length r.payload + min_body < 2 ^ 32 = fits.4 in
          omega (arith, length-record_body r)

  -- A record that was written is parsed, and what follows it is left.
  pub parse_record-write_record :
      (rest : Bytes) → parse_record (write_record r ++ rest) ≡ some (r, rest)
  unfolding parse_record
  parse_record-write_record rest =
      ap (λ c. c >>= λ p. parse_body p.0 >>= λ w. some (w, p.1)) (record_chunk-write_record rest)
      ∙ ap (λ w. w >>= λ v. some (v, rest)) parse_body-record_body
