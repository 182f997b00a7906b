-- ===== src/Tests/Logs.antt =====
-- Runs of the theorems on the write-ahead log, src/txn/wal.cpp.
use trans_db.Prelude.{◌-◌, ◌≡◌, refl, sym, append-nil, true, [], ◌∷◌, ◌++◌, length, take, arith}
use trans_db.Bytes.{append_le, read_at, read_le}
use trans_db.Wal.Payload.{WriteInfo}
use trans_db.Wal.Record.{
  WalRecord, begin, type_byte, type_of_byte, write_record, record_body, crc_region, parse_loop,
  parse_records_from_bytes,
}
use trans_db.Wal.Replay.{write_all}
use trans_db.Raft.Log.Index.{take_all}
use trans_db.Wal.Torn.{complete, parse_loop-take}
use trans_db.Wal.Log.{Wal, written, append_sync, append, sync}
use trans_db.Wal.Durability.{Holds, replay-append_sync, replay_behind_damage}

abbrev row : WriteInfo
row = record { table_id = 3; key = 49 ∷ []; value = 0 ∷ 255 ∷ []; write_ts = 12 }

abbrev first : WalRecord
first = record { lsn = 1; txn_id = 7; type = begin; payload = 5 ∷ [] }

parse_loop-take_example :
    (parse_loop 6 (take 5 (write_all (first ∷ []))) 0).0 ≡ complete 5 (first ∷ [])
unfolding write_all write_record type_byte type_of_byte append_le record_body crc_region
parse_loop-take_example =
    parse_loop-take 5 (first ∷ []) 0 6
      ((omega arith, omega arith, omega arith, refl, omega arith), tt) (omega arith)

abbrev blank : Wal
blank = record { file = []; synced = 0; good = true; next_lsn = 1 }

abbrev filled : Wal
filled = record {
  file = write_record first;
  synced = length (write_record first);
  good = true;
  next_lsn = 2;
}

blank-Holds : Holds blank []
unfolding write_all
blank-Holds = record { file_eq = refl; fits = tt }

replay-append_sync_example :
    (parse_records_from_bytes (write_record first)).0
    ≡ ([] ++ first ∷ []) ++ complete (length (write_record first) - length (write_record first)) []
unfolding append_sync append sync type_byte type_of_byte write_all
replay-append_sync_example =
    replay-append_sync blank filled [] [] 7 begin (5 ∷ []) written filled (write_record first)
      blank-Holds (omega arith, omega arith, omega arith, refl, omega arith) tt refl
      (sym (append-nil (write_record first))) (omega arith)
      (record {
        cut = length (write_record first);
        kept = omega arith;
        bytes_eq = sym (take_all (length (write_record first)) (write_record first) (omega arith));
      })

replay_behind_damage_example :
    (parse_records_from_bytes
      (write_all (first ∷ []) ++ ((0 ∷ 0 ∷ 0 ∷ 0 ∷ []) ++ write_record first))).0
    ≡ first ∷ []
unfolding type_byte type_of_byte read_at read_le
replay_behind_damage_example =
    replay_behind_damage (first ∷ []) (0 ∷ 0 ∷ 0 ∷ 0 ∷ []) (write_record first)
      ((omega arith, omega arith, omega arith, refl, omega arith), tt) (omega arith)
