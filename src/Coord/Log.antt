-- ===== src/Coord/Log.antt =====
-- `CoordinatorLog` of src/coordinator/coordinator_log.cpp: a file of records behind their lengths. The
-- file system's answers are arguments, and a flush runs at once, as in the write-ahead log.
use trans_db.Prelude.{
  ℕ, zero, suc, ◌+◌, ◌-◌, ◌*◌, Bool, false, Option, none, some, ◌>>=◌, List, [], ◌∷◌, ◌++◌, length,
  take, drop, ltb, ◌==◌, if◌then◌else◌, Status, ok, io_error, is_ok,
}
use trans_db.Bytes.{Bytes, append_le, read_le, consume_le}
use trans_db.Bytes.Crc.{crc32_ieee}
use trans_db.Bytes.Framed.{read_frames}
use trans_db.Wal.Log.{
  WriteOutcome, written, failed_after, SyncOutcome, on_disk, flush_failed, fsync_failed,
}

-- `CoordinatorLogRecordType`; the enum's underlying type holds any byte.
pub data CoordinatorLogRecordType : Type 0 where
  preparing committing committed aborting aborted : CoordinatorLogRecordType
  other : ℕ → CoordinatorLogRecordType

unfoldable pub record_type_byte : CoordinatorLogRecordType → ℕ
record_type_byte preparing = 1
record_type_byte committing = 2
record_type_byte committed = 3
record_type_byte aborting = 4
record_type_byte aborted = 5
record_type_byte (other b) = b

unfoldable pub record_type_of_byte : ℕ → CoordinatorLogRecordType
record_type_of_byte b =
    if b == 1
    then preparing
    else if b == 2
    then committing
    else if b == 3
    then committed
    else if b == 4
    then aborting
    else if b == 5
    then aborted
    else other b

pub record CoordinatorLogRecord : Type 0 where
  pub type : CoordinatorLogRecordType
  pub txn_id : ℕ
  pub timestamp_us : ℕ
  pub shards : List ℕ

unfoldable pub write_shards : List ℕ → Bytes
write_shards [] = []
write_shards (sid ∷ sids) = append_le 4 sid ++ write_shards sids

-- The body up to the checksum.
unfoldable pub body_region : CoordinatorLogRecord → Bytes
body_region r =
    append_le 8 r.txn_id
    ++ (append_le 8 r.timestamp_us
        ++ (record_type_byte r.type ∷ (append_le 4 (length r.shards) ++ write_shards r.shards)))

unfoldable pub log_body : CoordinatorLogRecord → Bytes
log_body r = body_region r ++ append_le 4 (crc32_ieee (body_region r))

-- The bytes that `WriteRecord` hands to the stream.
unfoldable pub log_bytes : CoordinatorLogRecord → Bytes
log_bytes r = append_le 4 (length (log_body r)) ++ log_body r

unfoldable pub read_shards : ℕ → Bytes → Option (List ℕ)
read_shards zero bytes = some []
read_shards (suc n) bytes = do
  (sid, rest) ← consume_le 4 bytes
  sids ← read_shards n rest
  some (sid ∷ sids)

-- The fields of a body whose checksum is right; `size` is that of the whole body.
unfoldable pub read_fields : ℕ → Bytes → Option CoordinatorLogRecord
read_fields size region = do
  (txn_id, b₁) ← consume_le 8 region
  (timestamp_us, b₂) ← consume_le 8 b₁
  (type, b₃) ← consume_le 1 b₂
  (shard_count, b₄) ← consume_le 4 b₃
  if 21 + shard_count * 4 + 4 == size
      then (do
        shards ← read_shards shard_count b₄
        some (record {
          type = record_type_of_byte type;
          txn_id = txn_id;
          timestamp_us = timestamp_us;
          shards = shards;
        }))
      else none

-- One round of the loop of `Replay`: the record and the bytes behind it, or `none` for `break`.
unfoldable pub read_log_record : Bytes → Option (CoordinatorLogRecord × Bytes)
read_log_record bytes = do
  (rec_len, b) ← consume_le 4 bytes
  if ltb rec_len 25
      then none
      else if ltb (length b) rec_len
      then none
      else (let body = take rec_len b in
          let region = take (rec_len - 4) body in
          if crc32_ieee region == read_le (drop (rec_len - 4) body)
          then (do r ← read_fields rec_len region; some (r, drop rec_len b))
          else none)

pub record CoordinatorLog : Type 0 where
  pub file : Bytes
  pub synced : ℕ
  -- the stream has no error bit set
  pub good : Bool

-- `WriteRecord`, which is all of `AppendWrite`.
unfoldable pub append_write :
    CoordinatorLog → CoordinatorLogRecord → WriteOutcome → CoordinatorLog × Status
append_write l r written =
    if l.good then (record l { file = l.file ++ log_bytes r }, ok) else (l, io_error)
append_write l r (failed_after n) =
    if l.good
    then (record l { file = l.file ++ take n (log_bytes r); good = false }, io_error)
    else (l, io_error)

-- `Flush`
unfoldable pub flush : CoordinatorLog → SyncOutcome → CoordinatorLog × Status
flush l outcome =
    if l.good
    then (elim outcome [
      | on_disk ↦ (record l { synced = length l.file }, ok)
      | flush_failed ↦ (record l { good = false }, io_error)
      | fsync_failed ↦ (l, io_error)
    ])
    else (l, io_error)

-- `Append`
unfoldable pub append_flush :
    CoordinatorLog → CoordinatorLogRecord → WriteOutcome → SyncOutcome → CoordinatorLog × Status
unfolding append_write flush
append_flush l r outcome sync_outcome =
    let (l', s) = append_write l r outcome in if is_ok s then flush l' sync_outcome else (l', s)

-- `Replay`: the records in the order in which the visitor sees them. `reads` is whether the file can be
-- read; a file that is empty is not.
unfoldable pub replay_log : CoordinatorLog → Bool → Status × List CoordinatorLogRecord
replay_log l reads =
    if length l.file == 0
    then (ok, [])
    else if reads
    then (ok, read_frames read_log_record (suc (length l.file)) l.file)
    else (io_error, [])
