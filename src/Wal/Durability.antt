-- ===== src/Wal/Durability.antt =====
-- What an acknowledged append promises: the record is replayed after a crash.
use trans_db.Prelude.{
  ℕ, suc, ◌+◌, ◌-◌, ◌%◌, ◌<◌, ◌≤◌, ◌≡◌, sym, ap, ◌∙◌, true, List, [], ◌∷◌, ◌++◌, length, take, ok,
  arith, append-nil, length-append, All, All-append,
}
use trans_db.Bytes.{Bytes, u64_mod, read_at}
use trans_db.Wal.Record.{
  WalRecord, WalRecordType, write_record, min_body, record_chunk, parse_record, parse_loop,
  parse_records_from_bytes, FitsRecord,
}
use trans_db.Wal.Replay.{write_all, write_all-append, max_lsn_of, parse_loop-write_all}
use trans_db.Wal.Torn.{complete, parse_loop-take}
use trans_db.Wal.Log.{
  Wal, WriteOutcome, written, failed_after, on_disk, append_sync, replay, Survives,
}

-- The file holds exactly these records.
pub record Holds (w : Wal) (rs : List WalRecord) : Type 0 where
  pub file_eq : w.file ≡ write_all rs
  pub fits : All FitsRecord rs

abbrev pub next_record : Wal → ℕ → WalRecordType → Bytes → WalRecord
next_record w txn_id type payload = record {
  lsn = w.next_lsn;
  txn_id = txn_id;
  type = type;
  payload = payload;
}

write_all_one : (r : WalRecord) → write_all (r ∷ []) ≡ write_record r
unfolding write_all
write_all_one r = append-nil (write_record r)

append_sync-file :
    (w w' : Wal) (txn_id : ℕ) (type : WalRecordType) (payload : Bytes) (outcome : WriteOutcome)
    → append_sync w txn_id type payload outcome on_disk ≡ (w', ok)
    → (w'.file ≡ w.file ++ write_record (next_record w txn_id type payload))
      × (w'.synced ≡ length w'.file)
unfolding append_sync
append_sync-file w w' txn_id type payload written e = ground arith
append_sync-file w w' txn_id type payload (failed_after n) e = ground arith

complete-append :
    (n : ℕ) (rs ts : List WalRecord)
    → length (write_all rs) ≤ n
    → complete n (rs ++ ts) ≡ rs ++ complete (n - length (write_all rs)) ts
unfolding complete write_all
complete-append n [] ts h = ap (λ k. complete k ts) (omega arith)
complete-append n (r ∷ rs) ts h =
    let e : length (write_record r ++ write_all rs)
        ≡ length (write_record r) + length (write_all rs) =
      length-append (write_record r) (write_all rs) in
    let ih : complete (n - length (write_record r)) (rs ++ ts)
        ≡ rs ++ complete (n - length (write_record r) - length (write_all rs)) ts =
      complete-append (n - length (write_record r)) rs ts (omega arith) in
    let k : n - length (write_record r) - length (write_all rs)
        ≡ n - length (write_record r ++ write_all rs) =
      omega arith in
    ground (arith, ih, ap (λ j. complete j ts) k)

-- Take a log whose file is the records `rs`, an `AppendSync` that is acknowledged, further records
-- behind it that may or may not be synced, and a crash that keeps what was synced and cuts the
-- rest anywhere. Replay of what is left gives `rs`, the acknowledged record, and those further
-- records that are whole. All records fit the fields of the format.
pub replay-append_sync :
    (w w' : Wal) (rs more : List WalRecord) (txn_id : ℕ) (type : WalRecordType) (payload : Bytes)
    (outcome : WriteOutcome) (v : Wal) (bytes : Bytes)
    → Holds w rs
    → FitsRecord (next_record w txn_id type payload)
    → All FitsRecord more
    → append_sync w txn_id type payload outcome on_disk ≡ (w', ok)
    → v.file ≡ w'.file ++ write_all more
    → w'.synced ≤ v.synced
    → (s : Survives v bytes)
    → (parse_records_from_bytes bytes).0
      ≡ (rs ++ next_record w txn_id type payload ∷ []) ++ complete (s.cut - length w'.file) more
unfolding parse_records_from_bytes
replay-append_sync w w' rs more txn_id type payload outcome v bytes holds fits fits_more acked later
      keeps s =
    ap (λ b. (parse_loop (suc (length b)) b 0).0) (s.bytes_eq ∙ ap (take s.cut) whole)
    ∙ parse_loop-take s.cut (acknowledged ++ more) 0 _
        (All-append FitsRecord acknowledged more
          (All-append FitsRecord rs (next_record w txn_id type payload ∷ []) holds.fits (fits, tt))
          fits_more)
        (omega arith)
    ∙ complete-append s.cut acknowledged more (
        let c : w'.synced ≤ s.cut = omega (arith, s.kept) in omega (arith, ap length file', done.1))
    ∙ ap (λ b. acknowledged ++ complete (s.cut - length b) more) (sym file')
  where
    acknowledged : List WalRecord
    acknowledged = rs ++ next_record w txn_id type payload ∷ []

    done :
        (w'.file ≡ w.file ++ write_record (next_record w txn_id type payload))
        × (w'.synced ≡ length w'.file)
    done = append_sync-file w w' txn_id type payload outcome acked

    file' : w'.file ≡ write_all acknowledged
    file' =
        done.0
        ∙ ap (λ b. b ++ write_record (next_record w txn_id type payload)) holds.file_eq
        ∙ sym (
            write_all-append rs (next_record w txn_id type payload ∷ [])
            ∙ ap (λ b. write_all rs ++ b) (write_all_one (next_record w txn_id type payload)))

    whole : v.file ≡ write_all (acknowledged ++ more)
    whole = later ∙ ap (λ b. b ++ write_all more) file' ∙ sym (write_all-append acknowledged more)

-- Replay of a log whose file is the records `rs`, which fit the format, visits them in order and
-- sets the next sequence number to one past the largest.
pub replay_intact :
    (w : Wal) (rs : List WalRecord)
    → Holds w rs
    → replay w true ≡ (record w { next_lsn = (max_lsn_of 0 rs + 1) % u64_mod }, ok, rs)
unfolding replay parse_records_from_bytes
replay_intact w rs holds = ground (arith, all)
  where
    all : parse_loop (suc (length w.file)) w.file 0 ≡ (rs, max_lsn_of 0 rs)
    all =
        unfold parse_loop parse_record record_chunk in
        ap (λ b. parse_loop (suc (length b)) b 0) (holds.file_eq ∙ sym (append-nil (write_all rs)))
        ∙ parse_loop-write_all rs [] 0 (suc (length (write_all rs ++ []))) holds.fits (omega arith)
        ∙ ap (λ l. (l, max_lsn_of 0 rs)) (append-nil rs)

-- Behind records that fit the format, if the next four bytes read as a length below the smallest
-- body, such as zeros, the replay stops there: whatever follows, also what is appended later, is
-- not visited.
pub replay_behind_damage :
    (rs : List WalRecord) (junk more : Bytes)
    → All FitsRecord rs
    → read_at 0 4 (junk ++ more) < min_body
    → (parse_records_from_bytes (write_all rs ++ (junk ++ more))).0 ≡ rs
unfolding parse_records_from_bytes
replay_behind_damage rs junk more fits small =
    ap (λ p. p.0) (parse_loop-write_all rs (junk ++ more) 0 _ fits (omega arith))
    ∙ ap (λ ts. rs ++ ts) stops
    ∙ append-nil rs
  where
    stops : (parse_loop (suc (length (junk ++ more))) (junk ++ more) (max_lsn_of 0 rs)).0 ≡ []
    stops = unfold parse_loop parse_record record_chunk in ground arith
