-- ===== src/Wal/Log.antt =====
-- The log object of src/txn/wal.cpp: `Open`, `Append`, `Sync`, `AppendSync`, `Replay`, `Truncate`.
-- `file` is what the stream has taken, of which the first `synced` bytes have reached the disk.
-- The file system's answers are arguments. A sync is run at once, as `DurableSyncRegistry::QueueSync`
-- does when no batching window is configured, which is the default.
use trans_db.Prelude.{
  ℕ, ◌+◌, ◌%◌, ◌≤◌, ◌≡◌, Option, none, some, Bool, true, false, List, [], ◌++◌, length, take,
  if◌then◌else◌, Status, ok, io_error, is_ok,
}
use trans_db.Bytes.{Bytes, u64_mod}
use trans_db.Wal.Record.{WalRecord, WalRecordType, write_record, parse_records_from_bytes}

pub record Wal : Type 0 where
  pub file : Bytes
  pub synced : ℕ
  -- the stream has no error bit set
  pub good : Bool
  pub next_lsn : ℕ

-- What a write on the stream does: all of it, or some bytes and then an error.
pub data WriteOutcome : Type 0 where
  written : WriteOutcome
  failed_after : ℕ → WriteOutcome

-- What `DurableFileSync` does: the bytes reach the disk; the flush of the stream fails, which sets its
-- error bit; or `fsync` fails, or there is no descriptor for it.
pub data SyncOutcome : Type 0 where
  on_disk flush_failed fsync_failed : SyncOutcome

-- `WAL::Open`, on the bytes that are found, and `none` where they cannot be read; `opens` is whether the
-- append stream opens. Nothing is known of which bytes are on the disk.
unfoldable pub open_log : Option Bytes → Bool → Option Wal
open_log none opens = none
open_log (some bytes) opens =
    let (rs, max_lsn) = parse_records_from_bytes bytes in
    if opens
    then some (record { file = bytes; synced = 0; good = true; next_lsn = (max_lsn + 1) % u64_mod })
    else none

write_bytes : Wal → Bytes → WriteOutcome → Wal × Status
write_bytes w bytes written =
    if w.good then (record w { file = w.file ++ bytes }, ok) else (w, io_error)
write_bytes w bytes (failed_after n) =
    if w.good
    then (record w { file = w.file ++ take n bytes; good = false }, io_error)
    else (w, io_error)

-- `WAL::Append`: the sequence number is taken before the write, and kept if the write fails.
unfoldable pub append : Wal → ℕ → WalRecordType → Bytes → WriteOutcome → Wal × Status
unfolding write_bytes
append w txn_id type payload outcome =
    write_bytes (record w { next_lsn = (w.next_lsn + 1) % u64_mod })
      (write_record (record { lsn = w.next_lsn; txn_id = txn_id; type = type; payload = payload }))
      outcome

-- `WAL::Sync`
unfoldable pub sync : Wal → SyncOutcome → Wal × Status
sync w outcome =
    if w.good
    then (elim outcome [
      | on_disk ↦ (record w { synced = length w.file }, ok)
      | flush_failed ↦ (record w { good = false }, io_error)
      | fsync_failed ↦ (w, io_error)
    ])
    else (w, io_error)

-- `WAL::AppendSync`
unfoldable pub append_sync :
    Wal → ℕ → WalRecordType → Bytes → WriteOutcome → SyncOutcome → Wal × Status
unfolding append sync
append_sync w txn_id type payload outcome sync_outcome =
    let (w', s) = append w txn_id type payload outcome in
    if is_ok s then sync w' sync_outcome else (w', s)

-- `WAL::Replay`; `reads` is whether the file can be read back. The visitor's records come back.
unfoldable pub replay : Wal → Bool → Wal × Status × List WalRecord
replay w reads =
    if reads
    then (let (rs, max_lsn) = parse_records_from_bytes w.file in
        (record w { next_lsn = (max_lsn + 1) % u64_mod }, ok, rs))
    else (w, io_error, [])

-- `WAL::Truncate`; `resizes` and `reopens` are whether the file can be cut and opened again.
unfoldable pub truncate : Wal → Bool → Bool → Wal × Status
truncate w resizes reopens =
    if resizes
    then (if reopens
        then (record { file = []; synced = 0; good = true; next_lsn = 1 }, ok)
        else (record { file = []; synced = 0; good = false; next_lsn = 1 }, io_error))
    else (record w { good = false }, io_error)

-- A crash of the machine keeps at least what was synced, and cuts the rest anywhere.
pub record Survives (w : Wal) (bytes : Bytes) : Type 0 where
  pub cut : ℕ
  pub kept : w.synced ≤ cut
  pub bytes_eq : bytes ≡ take cut w.file
