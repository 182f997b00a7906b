-- ===== src/Machine/Batch.antt =====
-- The payloads of src/raft/raft_state_machine.cpp.
use trans_db.Prelude.{
  ℕ, zero, suc, ◌-◌, ◌==◌, not, Bool, List, [], ◌∷◌, ◌++◌, Option, none, some, ◌>>=◌, length, take,
  drop, ltb, if◌then◌else◌,
}
use trans_db.Bytes.{Bytes, append_le, read_le, consume_le, consume_bytes}

pub record PrepareBatchWrite : Type 0 where
  pub is_delete : Bool
  pub table_id : ℕ
  pub key : Bytes
  pub value : Bytes

pub record PrepareBatch : Type 0 where
  pub raft_txn_id : ℕ
  pub snapshot_ts : ℕ
  pub commit_ts : ℕ
  pub writes : List PrepareBatchWrite

-- `PackTxnPayload`
unfoldable pub pack_txn_payload : Bytes → ℕ → Bytes
pack_txn_payload wal_payload raft_txn_id = wal_payload ++ append_le 8 raft_txn_id

-- `PackAbortPayload`
unfoldable pub pack_abort_payload : ℕ → Bytes
pack_abort_payload raft_txn_id = append_le 8 raft_txn_id

-- The loop of `PackPrepareBatchPayload`.
unfoldable pub pack_writes : List PrepareBatchWrite → Bytes
pack_writes [] = []
pack_writes (w ∷ ws) =
    (if w.is_delete then 1 else 0)
    ∷ (append_le 4 w.table_id
        ++ (append_le 4 (length w.key)
            ++ (w.key ++ (append_le 4 (length w.value) ++ (w.value ++ pack_writes ws)))))

-- `PackPrepareBatchPayload`
unfoldable pub pack_prepare_batch_payload : PrepareBatch → Bytes
unfolding pack_writes
pack_prepare_batch_payload b =
    append_le 8 b.raft_txn_id
    ++ (append_le 8 b.snapshot_ts
        ++ (append_le 8 b.commit_ts ++ (append_le 4 (length b.writes) ++ pack_writes b.writes)))

-- `UnpackPayload`
unfoldable pub unpack_payload : Bytes → Option (Bytes × ℕ)
unpack_payload full =
    let n = length full in
    if ltb n 8 then none else some (take (n - 8) full, read_le (drop (n - 8) full))

-- One round of the loop of `UnpackPrepareBatchPayload`.
unfoldable pub unpack_write : Bytes → Option (PrepareBatchWrite × Bytes)
unpack_write [] = none
unpack_write (b ∷ p₀) = do
  (tid, p₁) ← consume_le 4 p₀
  (key_len, p₂) ← consume_le 4 p₁
  (key, p₃) ← consume_bytes key_len p₂
  (val_len, p₄) ← consume_le 4 p₃
  (value, p₅) ← consume_bytes val_len p₄
  some (record { is_delete = not (b == 0); table_id = tid; key = key; value = value }, p₅)

unfoldable pub unpack_writes : ℕ → Bytes → Option (List PrepareBatchWrite)
unfolding unpack_write
unpack_writes zero payload = some []
unpack_writes (suc n) payload = do
  (w, rest) ← unpack_write payload
  ws ← unpack_writes n rest
  some (w ∷ ws)

-- `UnpackPrepareBatchPayload`
unfoldable pub unpack_prepare_batch_payload : Bytes → Option PrepareBatch
unfolding unpack_writes
unpack_prepare_batch_payload payload = do
  (raft_txn_id, p₁) ← consume_le 8 payload
  (snapshot_ts, p₂) ← consume_le 8 p₁
  (commit_ts, p₃) ← consume_le 8 p₂
  (num_writes, p₄) ← consume_le 4 p₃
  writes ← unpack_writes num_writes p₄
  some (record {
    raft_txn_id = raft_txn_id;
    snapshot_ts = snapshot_ts;
    commit_ts = commit_ts;
    writes = writes;
  })
