-- ===== src/Coord/Calls.antt =====
-- src/coordinator/coordinator.cpp: the records of the log, and the calls of a client up to its commit.
-- The threads of one call (`std::async`) run one after the other, in the order in which they start.
use trans_db.Prelude.{
  ℕ, zero, suc, ◌+◌, ◌%◌, Bool, true, false, not, ◌&&◌, Option, none, some, List, [], ◌∷◌, ◌++◌,
  leb, ◌==◌, length, if◌then◌else◌, Status, ok, io_error, invalid_argument, is_ok,
}
use trans_db.Bytes.{Bytes, u64_mod}
use trans_db.Storage.Order.{◌<l◌}
use trans_db.Coord.Log.{
  CoordinatorLogRecord, CoordinatorLogRecordType, aborting, aborted, append_write, flush,
}
use trans_db.Coord.Outside.{
  Outside, ExecuteRequest, op_begin, op_read, op_write, op_delete, op_scan, ExecuteResponse,
  JoinResponse,
}
use trans_db.Coord.Shards.{
  CoordinatorTxn, Coordinator, route_shard, get_stub, leader_retry, execute_with_leader_retry,
  join_verdict, leader_retry_attempts,
}

abbrev pub member : ℕ → List ℕ → Bool
member s [] = false
member s (x ∷ xs) = let rest = member s xs in if s == x then true else rest

module _ (O : Outside) where
  -- `ts_oracle_.Now()`
  unfoldable pub now : Coordinator O → Coordinator O × ℕ
  now c = (record c { current = (c.current + 1) % u64_mod }, c.current)

  -- `AppendCoordinatorRecordWrite`
  unfoldable pub append_coordinator_record_write :
      Coordinator O → CoordinatorLogRecordType → ℕ → List ℕ → Coordinator O × Status
  append_coordinator_record_write c type txn_id shards = elim c.log [
    | none ↦ (c, io_error)
    | some l ↦
        let (w, timestamp_us) = O.system_clock_us c.world in
        let (w', outcome) = O.write_log w in
        let rec : CoordinatorLogRecord = record {
          type = type;
          txn_id = txn_id;
          timestamp_us = timestamp_us;
          shards = shards;
        } in
        let (l', st) = append_write l rec outcome in (record c { world = w'; log = some l' }, st)
  ]

  -- `FlushCoordinatorLog`
  unfoldable pub flush_coordinator_log : Coordinator O → Coordinator O × Status
  flush_coordinator_log c = elim c.log [
    | none ↦ (c, io_error)
    | some l ↦
        let (w, sync_outcome) = O.sync_log c.world in
        let (l', st) = flush l sync_outcome in (record c { world = w; log = some l' }, st)
  ]

  -- `AppendCoordinatorRecord`
  unfoldable pub append_coordinator_record :
      Coordinator O → CoordinatorLogRecordType → ℕ → List ℕ → Coordinator O × Status
  append_coordinator_record c type txn_id shards =
      let (c₁, ws) = append_coordinator_record_write c type txn_id shards in
      if is_ok ws then flush_coordinator_log c₁ else (c₁, ws)

  -- `txns_[txn_id] = txn`, and `erase` for `none`.
  abbrev pub set_txn : Coordinator O → ℕ → Option CoordinatorTxn → Coordinator O
  set_txn c txn_id txn = record c { txns = λ u. if txn_id == u then txn else c.txns u }

  -- `Begin`
  unfoldable pub begin : Coordinator O → Coordinator O × ℕ
  begin c =
      let raft_txn_id = c.next_txn_id in
      let (c₁, snap) = now (record c { next_txn_id = (c.next_txn_id + 1) % u64_mod }) in
      let txn : CoordinatorTxn = record {
        raft_txn_id = raft_txn_id;
        snapshot_ts = snap;
        participant_shards = [];
        aborted = false;
      } in
      (set_txn c₁ raft_txn_id (some txn), raft_txn_id)

  -- `EnsureShardParticipant` for the transaction that `txns_` has at `txn_id`, which it changes in place.
  unfoldable pub ensure_shard_participant :
      Coordinator O → ℕ → CoordinatorTxn → ℕ → Coordinator O × (Status × CoordinatorTxn)
  ensure_shard_participant c txn_id txn shard_id =
      let (c₁, (st, resp)) =
        execute_with_leader_retry O c shard_id (op_begin txn.raft_txn_id txn.snapshot_ts) in
      let joined = record txn { participant_shards = txn.participant_shards ++ (shard_id ∷ []) } in
      if member shard_id txn.participant_shards
      then (c, (ok, txn))
      else if is_ok st
      then (set_txn c₁ txn_id (some joined), (st, joined))
      else (c₁, (st, txn))

  -- What `Read`, `Write` and `Delete` have in common: the request is sent to the shard of the key.
  unfoldable pub execute_on_key :
      Coordinator O
      → ℕ
      → Bytes
      → (CoordinatorTxn → ExecuteRequest)
      → Coordinator O × (Status × Option ExecuteResponse)
  execute_on_key c txn_id key request = elim (c.txns txn_id) [
    | none ↦ (c, (invalid_argument, none))
    | some txn ↦
        let shard_id = route_shard c.num_shards key in
        let (c₁, (es, txn₁)) = ensure_shard_participant c txn_id txn shard_id in
        if txn.aborted
        then (c, (invalid_argument, none))
        else if is_ok es
        then execute_with_leader_retry O c₁ shard_id (request txn)
        else (c₁, (es, none))
  ]

  -- What is written to `*value_out`, if anything is.
  unfoldable pub value_out : Option ExecuteResponse → Option Bytes
  value_out none = none
  value_out (some r) = if r.success && not (length r.value == 0) then some r.value else none

  -- `Read`
  unfoldable pub read : Coordinator O → ℕ → ℕ → Bytes → Coordinator O × (Status × Option Bytes)
  read c txn_id table_id key =
      let (c₁, (st, resp)) =
        execute_on_key c txn_id key (λ txn. op_read txn.raft_txn_id table_id key) in
      (c₁, (st, value_out resp))

  -- `Write`
  unfoldable pub write : Coordinator O → ℕ → ℕ → Bytes → Bytes → Coordinator O × Status
  write c txn_id table_id key value =
      let (c₁, (st, resp)) =
        execute_on_key c txn_id key (λ txn. op_write txn.raft_txn_id table_id key value) in
      (c₁, st)

  -- `Delete`
  unfoldable pub delete : Coordinator O → ℕ → ℕ → Bytes → Coordinator O × Status
  delete c txn_id table_id key =
      let (c₁, (st, resp)) =
        execute_on_key c txn_id key (λ txn. op_delete txn.raft_txn_id table_id key) in
      (c₁, st)

  -- The first loop of `Scan`: `n` shards from `sid` on take part.
  unfoldable pub ensure_shards : ℕ → ℕ → Coordinator O → ℕ → CoordinatorTxn → Coordinator O × Status
  ensure_shards zero sid c txn_id txn = (c, ok)
  ensure_shards (suc n) sid c txn_id txn =
      let (c₁, (es, txn₁)) = ensure_shard_participant c txn_id txn sid in
      let rest = ensure_shards n (sid + 1) c₁ txn_id txn₁ in if is_ok es then rest else (c₁, es)

  -- The scans of `n` shards from `sid` on, each with its rows.
  unfoldable pub scan_shards :
      ℕ → ℕ → Coordinator O → ExecuteRequest → Coordinator O × List (Status × List (Bytes × Bytes))
  scan_shards zero sid c req = (c, [])
  scan_shards (suc n) sid c req =
      let (c₁, (st, resp)) = execute_with_leader_retry O c sid req in
      let rows = if is_ok st then (elim resp [ none ↦ [] | some r ↦ r.scan_rows ]) else [] in
      let (c₂, rest) = scan_shards n (sid + 1) c₁ req in (c₂, (st, rows) ∷ rest)

  -- The loop over the results: it stops at the first scan that failed, with the rows before it.
  unfoldable pub collect_rows : List (Status × List (Bytes × Bytes)) → Status × List (Bytes × Bytes)
  collect_rows [] = (ok, [])
  collect_rows ((st, rows) ∷ results) =
      let (st', rest) = collect_rows results in if is_ok st then (st', rows ++ rest) else (st, [])

  unfoldable pub insert_row : Bytes × Bytes → List (Bytes × Bytes) → List (Bytes × Bytes)
  insert_row row [] = row ∷ []
  insert_row row (r ∷ rows) =
      let rest = insert_row row rows in if r.0 <l row.0 then r ∷ rest else row ∷ (r ∷ rows)

  -- `std::sort` by the first part. Rows whose first parts are equal keep their order here.
  unfoldable pub sort_rows : List (Bytes × Bytes) → List (Bytes × Bytes)
  sort_rows [] = []
  sort_rows (row ∷ rows) = insert_row row (sort_rows rows)

  -- `Scan`
  unfoldable pub scan :
      Coordinator O → ℕ → ℕ → Bytes → Bytes → Bool → Coordinator O × (Status × List (Bytes × Bytes))
  scan c txn_id table_id range_start_pk range_end_exclusive range_end_open = elim (c.txns txn_id) [
    | none ↦ (c, (invalid_argument, []))
    | some txn ↦
        let (c₁, es) = ensure_shards c.num_shards 0 c txn_id txn in
        let req =
          op_scan txn.raft_txn_id table_id range_start_pk range_end_exclusive range_end_open in
        let (c₂, results) = scan_shards c.num_shards 0 c₁ req in
        let (st, rows) = collect_rows results in
        if txn.aborted
        then (c, (invalid_argument, []))
        else if is_ok es
        then (c₂, (st, if is_ok st then sort_rows rows else rows))
        else (c₁, (es, []))
  ]

  -- `DistributedJoinOnShard`, with the calls of `RpcDistributedJoinOnShard`.
  unfoldable pub distributed_join_on_shard :
      Coordinator O → ℕ → ℕ → O.JoinRequest → Coordinator O × (Status × Option JoinResponse)
  distributed_join_on_shard c shard_id txn_id req = elim (c.txns txn_id) [
    | none ↦ (c, (invalid_argument, none))
    | some txn ↦
        let (c₁, (es, txn₁)) = ensure_shard_participant c txn_id txn shard_id in
        if txn.aborted
        then (c, (invalid_argument, none))
        else if leb c.num_shards shard_id
        then (c, (invalid_argument, none))
        else if is_ok es
        then leader_retry O (λ w stub. O.join w shard_id stub txn.raft_txn_id req) join_verdict
            leader_retry_attempts c₁ shard_id
        else (c₁, (es, none))
  ]

  -- The threads of `Abort`: one call to each shard, over the stub that is in use.
  unfoldable pub abort_once : Coordinator O → ℕ → List ℕ → Coordinator O
  abort_once c raft_tid [] = c
  abort_once c raft_tid (sid ∷ sids) =
      let next : Coordinator O = elim (get_stub O c sid) [
        | none ↦ c
        | some stub ↦ let (w, sent) = O.abort c.world sid stub raft_tid in record c { world = w }
      ] in
      abort_once next raft_tid sids

  -- `Abort`
  unfoldable pub abort : Coordinator O → ℕ → Coordinator O × Status
  abort c txn_id = elim (c.txns txn_id) [
    | none ↦ (c, ok)
    | some txn ↦
        let c₀ = set_txn c txn_id none in
        let (c₁, s₁) = append_coordinator_record c₀ aborting txn.raft_txn_id [] in
        let c₂ = abort_once c₁ txn.raft_txn_id txn.participant_shards in
        let (c₃, s₃) = append_coordinator_record c₂ aborted txn.raft_txn_id [] in
        if length txn.participant_shards == 0 then (c₀, ok) else (c₃, ok)
  ]
