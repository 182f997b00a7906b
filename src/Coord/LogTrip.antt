-- ===== src/Coord/LogTrip.antt =====
-- The records of src/coordinator/coordinator_log.cpp, read back from a file that was cut anywhere.
use trans_db.Prelude.{
  ℕ, suc, ◌+◌, ◌-◌, ◌*◌, ◌<◌, ◌≤◌, ◌≡◌, true, false, refl, sym, ap, append_assoc, ◌∙◌, none, some,
  List, [], ◌∷◌, ◌++◌, length, take, drop, ltb, ◌==◌, arith, All, length-append, length-take,
  take-append_exact, drop-append_exact, take-append_ge, le→ltb, lt→ltb, Bool-cases, inl, inr,
  ==_refl, ok,
}
use trans_db.Bytes.{Bytes, u32_mod, u64_mod, append_le, read_le, consume_le}
use trans_db.Bytes.Crc.{crc32_ieee, crc32_ieee-lt}
use trans_db.Bytes.RoundTrip.{length-append_le, read_le-append_le, consume_le-append_le}
use trans_db.Bytes.Framed.{Format, read_frames, write_frames, whole_frames, read_frames-take}
use trans_db.Coord.Log.{
  CoordinatorLogRecord, record_type_byte, record_type_of_byte, write_shards, body_region, log_body,
  log_bytes, read_shards, read_fields, read_log_record, CoordinatorLog, replay_log,
}

unfoldable pub FitsLogRecord : CoordinatorLogRecord → Type 0
FitsLogRecord r =
    (r.txn_id < u64_mod)
    × (r.timestamp_us < u64_mod)
    × (record_type_byte r.type < 256)
    × (record_type_of_byte (record_type_byte r.type) ≡ r.type)
    × (length r.shards * 4 + 25 < u32_mod)
    × All (λ s. s < u32_mod) r.shards

length-write_shards : (sids : List ℕ) → length (write_shards sids) ≡ length sids * 4
unfolding write_shards
length-write_shards [] = refl
length-write_shards (s ∷ sids) = omega (
  arith,
  length-append (append_le 4 s) (write_shards sids),
  length-append_le 4 s,
  length-write_shards sids,
)

read_shards-write_shards :
    (sids : List ℕ)
    → All (λ s. s < u32_mod) sids
    → read_shards (length sids) (write_shards sids) ≡ some sids
unfolding read_shards write_shards
read_shards-write_shards [] h = refl
read_shards-write_shards (s ∷ sids) h =
    rw (consume_le-append_le 4 s (write_shards sids) h.0, read_shards-write_shards sids h.1) refl

read_log_record_short : (bytes : Bytes) → length bytes < 4 → read_log_record bytes ≡ none
unfolding read_log_record consume_le
read_log_record_short bytes k = rw (lt→ltb (length bytes) 4 k) refl

read_log_record_cut :
    (size : ℕ) (body : Bytes)
    → size < u32_mod
    → length body < size
    → read_log_record (append_le 4 size ++ body) ≡ none
unfolding read_log_record
read_log_record_cut size body k small =
    rw (consume_le-append_le 4 size body k) (ground (arith, small))

module _ (r : CoordinatorLogRecord) (fits : FitsLogRecord r) where
  length-body_region : length (body_region r) ≡ length r.shards * 4 + 21
  unfolding body_region
  length-body_region = omega (
    arith,
    length-append (append_le 8 r.txn_id) (
        append_le 8 r.timestamp_us
        ++ (record_type_byte r.type ∷ (append_le 4 (length r.shards) ++ write_shards r.shards))),
    length-append (append_le 8 r.timestamp_us)
        (record_type_byte r.type ∷ (append_le 4 (length r.shards) ++ write_shards r.shards)),
    length-append (append_le 4 (length r.shards)) (write_shards r.shards),
    length-append_le 8 r.txn_id,
    length-append_le 8 r.timestamp_us,
    length-append_le 4 (length r.shards),
    length-write_shards r.shards,
  )

  length-log_body : length (log_body r) ≡ length r.shards * 4 + 25
  unfolding log_body
  length-log_body = omega (
    arith,
    length-body_region,
    length-append (body_region r) (append_le 4 (crc32_ieee (body_region r))),
    length-append_le 4 (crc32_ieee (body_region r)),
  )

  type_split :
      (rest : Bytes)
      → record_type_byte r.type ∷ rest ≡ append_le 1 (record_type_byte r.type) ++ rest
  unfolding append_le FitsLogRecord
  type_split rest =
      ap (λ b. b ∷ rest) (let h : record_type_byte r.type < 256 = fits.2 in omega arith)

  read_fields-body_region : read_fields (length (log_body r)) (body_region r) ≡ some r
  unfolding read_fields body_region FitsLogRecord
  read_fields-body_region =
      let b₄ : Bytes = write_shards r.shards in
      let b₃ : Bytes = append_le 4 (length r.shards) ++ b₄ in
      let b₂ : Bytes = record_type_byte r.type ∷ b₃ in
      let b₁ : Bytes = append_le 8 r.timestamp_us ++ b₂ in
      let size : (21 + length r.shards * 4 + 4 == length (log_body r)) ≡ true =
        ground (arith, length-log_body) in
      rw
        (consume_le-append_le 8 r.txn_id b₁ fits.0, consume_le-append_le 8 r.timestamp_us b₂ fits.1)
        (rw (type_split b₃) (
          rw
            (
              consume_le-append_le 1 (record_type_byte r.type) b₃ fits.2,
              consume_le-append_le 4 (length r.shards) b₄ (omega (arith, fits.4)),
              size,
              read_shards-write_shards r.shards fits.5,
              fits.3,
            )
            refl))

  length-region : length (log_body r) - 4 ≡ length (body_region r)
  length-region = omega (arith, length-log_body, length-body_region)

  take-log_body : take (length (log_body r) - 4) (log_body r) ≡ body_region r
  unfolding log_body
  take-log_body =
      take-append_exact (length (log_body r) - 4) (body_region r)
        (append_le 4 (crc32_ieee (body_region r))) (sym length-region)

  checksum-log_body :
      read_le (drop (length (log_body r) - 4) (log_body r)) ≡ crc32_ieee (body_region r)
  unfolding log_body
  checksum-log_body =
      ap read_le (
        drop-append_exact (length (log_body r) - 4) (body_region r)
          (append_le 4 (crc32_ieee (body_region r))) (sym length-region))
      ∙ read_le-append_le 4 (crc32_ieee (body_region r)) (crc32_ieee-lt (body_region r))

  size_fits : length (log_body r) < u32_mod
  unfolding FitsLogRecord
  size_fits = omega (arith, length-log_body, fits.4)

  pub read_log_record-log_bytes :
      (rest : Bytes) → read_log_record (log_bytes r ++ rest) ≡ some (r, rest)
  unfolding read_log_record log_bytes
  read_log_record-log_bytes rest =
      let size = length (log_body r) in
      ap (λ b. read_log_record b) (append_assoc (append_le 4 size) (log_body r) rest)
      ∙ rw
          (
            consume_le-append_le 4 size (log_body r ++ rest) size_fits,
            le→ltb size 25 (omega (arith, length-log_body)),
            le→ltb (length (log_body r ++ rest)) size
                (omega (arith, length-append (log_body r) rest)),
            take-append_exact size (log_body r) rest refl,
            drop-append_exact size (log_body r) rest refl,
            take-log_body,
            checksum-log_body,
            ==_refl (crc32_ieee (body_region r)),
            read_fields-body_region,
          )
          refl

  length-log_bytes : length (log_bytes r) ≡ length (log_body r) + 4
  unfolding log_bytes
  length-log_bytes = omega (
    arith,
    length-append (append_le 4 (length (log_body r))) (log_body r),
    length-append_le 4 (length (log_body r)),
  )

  cut-log_bytes :
      (n : ℕ)
      → 4 ≤ n
      → take n (log_bytes r) ≡ append_le 4 (length (log_body r)) ++ take (n - 4) (log_body r)
  unfolding log_bytes
  cut-log_bytes n k =
      take-append_ge n (append_le 4 (length (log_body r))) (log_body r)
        (omega (arith, length-append_le 4 (length (log_body r)), k))
      ∙ ap (λ j. append_le 4 (length (log_body r)) ++ take (n - j) (log_body r))
          (length-append_le 4 (length (log_body r)))

  -- A record of which bytes are missing at the end is not read.
  pub read_log_record_torn :
      (n : ℕ) → n < length (log_bytes r) → read_log_record (take n (log_bytes r)) ≡ none
  read_log_record_torn n h = elim (Bool-cases (ltb n 4)) [
    | inl short ↦
        let k : n < 4 = ground (arith, short) in
        read_log_record_short (take n (log_bytes r))
          (omega (arith, length-take n (log_bytes r) (omega (arith, h)), k))
    | inr long ↦
        let k : 4 ≤ n = ground (arith, long) in
        ap read_log_record (cut-log_bytes n k)
        ∙ read_log_record_cut (length (log_body r)) (take (n - 4) (log_body r)) size_fits (
            omega (
              arith,
              length-take (n - 4) (log_body r) (omega (arith, h, length-log_bytes, k)),
              h,
              length-log_bytes,
              k,
            ))
  ]

pub read_log_record_empty : read_log_record [] ≡ none
unfolding read_log_record consume_le
read_log_record_empty = refl

pub log_bytes_some : (r : CoordinatorLogRecord) → 0 < length (log_bytes r)
unfolding log_bytes
log_bytes_some r = omega (
  arith,
  length-append (append_le 4 (length (log_body r))) (log_body r),
  length-append_le 4 (length (log_body r)),
)

-- The coordinator's log as a format.
abbrev pub log_format : Format
log_format = record {
  Record = CoordinatorLogRecord;
  write = log_bytes;
  parse = read_log_record;
  Fits = FitsLogRecord;
  parse-write = λ r rest fits. read_log_record-log_bytes r fits rest;
  parse_torn = λ r n fits h. read_log_record_torn r fits n h;
  parse_empty = read_log_record_empty;
  write_some = log_bytes_some;
}

replay_found :
    (l : CoordinatorLog) (file : Bytes) (rs : List CoordinatorLogRecord)
    → l.file ≡ file
    → read_frames read_log_record (suc (length file)) file ≡ rs
    → replay_log l true ≡ (ok, rs)
unfolding replay_log read_frames
replay_found l [] rs e h = ground (arith, read_log_record_empty, ap length e, h)
replay_found l (b ∷ bs) rs e h =
    let full : (length (b ∷ bs) == 0) ≡ false = ground arith in rw (e, full) (ap (λ x. (ok, x)) h)

-- The file of a coordinator log of which only the first `n` bytes are left, of records that fit
-- their fields, replays as those of the records, in order, of which the last byte is left, and
-- nothing else.
pub replay_log-take :
    (l : CoordinatorLog) (rs : List CoordinatorLogRecord) (n : ℕ)
    → All FitsLogRecord rs
    → l.file ≡ take n (write_frames log_format rs)
    → replay_log l true ≡ (ok, whole_frames log_format n rs)
replay_log-take l rs n fits h =
    replay_found l (take n (write_frames log_format rs)) (whole_frames log_format n rs) h (
      read_frames-take log_format n rs (suc (length (take n (write_frames log_format rs)))) fits
        (omega arith))
