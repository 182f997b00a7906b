-- ===== src/Tests/Machines.antt =====
-- Runs of the theorems on the state machine, src/raft/raft_state_machine.cpp.
use trans_db.Prelude.{◌≡◌, none, some, true, false, [], ◌∷◌, arith, ok}
use trans_db.Wal.Log.{written, on_disk}
use trans_db.Locks.Running.{start}
use trans_db.Storage.Rocks.{sorted_list, empty_list}
use trans_db.Machine.Batch.{PrepareBatch, pack_prepare_batch_payload, unpack_prepare_batch_payload}
use trans_db.Machine.Unpack.{FitsBatch, FitsBatchWrite, unpack_prepare_batch_payload-pack}
use trans_db.Machine.Apply.{Machine, Answers}

abbrev batch : PrepareBatch
batch = record {
  raft_txn_id = 40;
  snapshot_ts = 5;
  commit_ts = 7;
  writes =
      record { is_delete = false; table_id = 3; key = 49 ∷ []; value = 8 ∷ [] }
      ∷ record { is_delete = true; table_id = 3; key = 50 ∷ []; value = [] }
      ∷ [];
}

batch-FitsBatch : FitsBatch batch
unfolding FitsBatch FitsBatchWrite
batch-FitsBatch = (
  omega arith,
  omega arith,
  omega arith,
  omega arith,
  ((omega arith, omega arith, omega arith), ((omega arith, omega arith, omega arith), tt)),
)

unpack_prepare_batch_payload-pack_example :
    unpack_prepare_batch_payload (pack_prepare_batch_payload batch) ≡ some batch
unpack_prepare_batch_payload-pack_example = unpack_prepare_batch_payload-pack batch batch-FitsBatch

no_rows : sorted_list.Db
unfolding sorted_list
no_rows = empty_list

abbrev replica : Machine sorted_list
replica = record {
  manager = record {
    txns = λ t. none;
    next_txn_id = 1;
    store = no_rows;
    wal = record { file = []; synced = 0; good = true; next_lsn = 1 };
    locks = start;
  };
  txn_id_map = λ t. none;
  prepare_results = λ t. none;
}

abbrev all_well : Answers
all_well = record {
  acq = ok;
  io = record { outcome = written; sync_outcome = on_disk };
  last = record { outcome = written; sync_outcome = on_disk };
  outcome = λ w. written;
  io_ok = λ w. true;
}
