-- ===== src/Wal/Record.antt =====
-- A record in the file: `WAL::WriteRecord` writes it and `ParseRecordsFromBytes` reads it, with
-- `WALRecordType` and `WALRecord` of src/txn/wal.h.
use trans_db.Prelude.{
  ℕ, zero, suc, ◌+◌, ◌-◌, ◌<◌, ◌≡◌, max, Option, none, some, List, [], ◌∷◌, ◌++◌, length, take,
  drop, ltb, ◌==◌, if◌then◌else◌, ◌>>=◌,
}
use trans_db.Bytes.{Bytes, u32_mod, u64_mod, append_le, read_le, read_at}
use trans_db.Bytes.Crc.{crc32_ieee}

-- The enum's underlying type holds any byte, and the parser checks none.
pub data WalRecordType : Type 0 where
  begin write delete prepare commit abort : WalRecordType
  other : ℕ → WalRecordType

-- `static_cast<uint8_t>(type)`
unfoldable pub type_byte : WalRecordType → ℕ
type_byte begin = 1
type_byte write = 2
type_byte delete = 3
type_byte prepare = 4
type_byte commit = 5
type_byte abort = 6
type_byte (other b) = b

-- `static_cast<WALRecordType>(type_byte)`
unfoldable pub type_of_byte : ℕ → WalRecordType
type_of_byte b =
    if b == 1
    then begin
    else if b == 2
    then write
    else if b == 3
    then delete
    else if b == 4
    then prepare
    else if b == 5
    then commit
    else if b == 6
    then abort
    else other b

pub record WalRecord : Type 0 where
  pub lsn : ℕ
  pub txn_id : ℕ
  pub type : WalRecordType
  pub payload : Bytes

-- The header and the payload: what the checksum is taken of.
unfoldable pub crc_region : WalRecord → Bytes
crc_region r =
    append_le 8 r.lsn
    ++ (append_le 8 r.txn_id ++ (type_byte r.type ∷ (append_le 4 (length r.payload) ++ r.payload)))

unfoldable pub record_body : WalRecord → Bytes
record_body r = crc_region r ++ append_le 4 (crc32_ieee (crc_region r))

-- The bytes that `WriteRecord` hands to the stream: the length of the body, and the body.
unfoldable pub write_record : WalRecord → Bytes
write_record r = append_le 4 (length (record_body r)) ++ record_body r

-- `kMinBody`
abbrev pub min_body : ℕ
min_body = 25

-- The checks on a body that is complete, and the record in it.
unfoldable pub parse_body : Bytes → Option WalRecord
parse_body body =
    let payload_len = read_at 17 4 body in
    if ltb (length body) min_body
    then none
    else if payload_len == length body - min_body
    then (if crc32_ieee (take (length body - 4) body) == read_le (drop (length body - 4) body)
        then some (record {
          lsn = read_at 0 8 body;
          txn_id = read_at 8 8 body;
          type = type_of_byte (read_at 16 1 body);
          payload = take payload_len (drop 21 body);
        })
        else none)
    else none

-- The length prefix and its checks: the body, and the bytes behind it.
unfoldable pub record_chunk : Bytes → Option (Bytes × Bytes)
record_chunk bytes =
    if ltb (length bytes) 4
    then none
    else if ltb (read_at 0 4 bytes) min_body
    then none
    else if ltb (length (drop 4 bytes)) (read_at 0 4 bytes)
    then none
    else some (take (read_at 0 4 bytes) (drop 4 bytes), drop (read_at 0 4 bytes) (drop 4 bytes))

-- One round of the loop, on the bytes from `off` on: the record and the bytes behind it, or `break`.
unfoldable pub parse_record : Bytes → Option (WalRecord × Bytes)
unfolding record_chunk parse_body
parse_record bytes = do (body, rest) ← record_chunk bytes; r ← parse_body body; some (r, rest)

-- The loop: the records in the order in which the visitor sees them, and `*max_lsn`.
unfoldable pub parse_loop : ℕ → Bytes → ℕ → List WalRecord × ℕ
parse_loop zero bytes max_lsn = ([], max_lsn)
parse_loop (suc fuel) bytes max_lsn = elim (parse_record bytes) [
  | none ↦ ([], max_lsn)
  | some (r, rest) ↦ let (rs, m) = parse_loop fuel rest (max max_lsn r.lsn) in (r ∷ rs, m)
]

-- A round takes at least 29 bytes, so as many rounds as bytes are enough.
unfoldable pub parse_records_from_bytes : Bytes → List WalRecord × ℕ
parse_records_from_bytes bytes = parse_loop (suc (length bytes)) bytes 0

abbrev pub FitsRecord : WalRecord → Type 0
FitsRecord r =
    (r.lsn < u64_mod)
    × (r.txn_id < u64_mod)
    × (type_byte r.type < 256)
    × (type_of_byte (type_byte r.type) ≡ r.type)
    × (length r.payload + min_body < u32_mod)
