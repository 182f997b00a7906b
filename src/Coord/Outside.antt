-- ===== src/Coord/Outside.antt =====
-- What src/coordinator/coordinator.cpp calls and cannot see into: the shards behind gRPC, the clock and
-- the file of its log. The requests and responses are those of proto/shard.proto.
use trans_db.Prelude.{ℕ, Bool, Option, List, Status}
use trans_db.Bytes.{Bytes}
use trans_db.Wal.Log.{WriteOutcome, SyncOutcome}

-- `ExecuteRequest`, by its `op`, with the fields that the coordinator sets.
pub data ExecuteRequest : Type 0 where
  op_begin : (raft_txn_id snapshot_ts : ℕ) → ExecuteRequest
  op_read : (raft_txn_id table_id : ℕ) (key : Bytes) → ExecuteRequest
  op_write : (raft_txn_id table_id : ℕ) (key value : Bytes) → ExecuteRequest
  op_delete : (raft_txn_id table_id : ℕ) (key : Bytes) → ExecuteRequest
  op_scan :
      (raft_txn_id table_id : ℕ) (range_start_pk range_end_exclusive : Bytes)
      (range_end_open : Bool)
      → ExecuteRequest

-- `error_code` is the number of a `StatusCode`: what the shards put there.
pub record ExecuteResponse : Type 0 where
  pub success : Bool
  pub error_code : Status
  pub error_message : Bytes
  pub value : Bytes
  pub scan_rows : List (Bytes × Bytes)

pub record PrepareResponse : Type 0 where
  pub vote_commit : Bool
  pub error_message : Bytes

pub record CommitResponse : Type 0 where
  pub success : Bool
  pub error_message : Bytes

-- `TxnStateCode`
pub data TxnStateCode : Type 0 where
  txn_unknown txn_in_flight txn_prepared txn_committed txn_aborted : TxnStateCode

pub record TxnStateResponse : Type 0 where
  pub success : Bool
  pub state : TxnStateCode

pub record JoinResponse : Type 0 where
  pub success : Bool
  pub error_code : Status
  pub error_message : Bytes
  pub rows : List Bytes

-- The connection a call goes over: a replica of the shard, or the shard's only address.
pub data Stub : Type 0 where
  replica : ℕ → Stub
  single : Stub

-- A call is made to a shard over a stub, and may fail: then there is no response. What a call does
-- outside the coordinator is the change of `World`.
pub record Outside : Type 1 where
  pub World : Type 0
  pub JoinRequest : Type 0
  pub execute : World → ℕ → Stub → ExecuteRequest → World × Option ExecuteResponse
  -- of a transaction, with its commit timestamp
  pub prepare : World → ℕ → Stub → ℕ → ℕ → World × Option PrepareResponse
  pub commit : World → ℕ → Stub → ℕ → ℕ → World × Option CommitResponse
  -- of a transaction; the response has nothing that is read
  pub abort : World → ℕ → Stub → ℕ → World × Bool
  pub query : World → ℕ → Stub → ℕ → World × Option TxnStateResponse
  pub join : World → ℕ → Stub → ℕ → JoinRequest → World × Option JoinResponse
  pub system_clock_us : World → World × ℕ
  -- what becomes of a write to the log, and of `fsync`
  pub write_log : World → World × WriteOutcome
  pub sync_log : World → World × SyncOutcome
