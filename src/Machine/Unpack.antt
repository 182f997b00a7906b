-- ===== src/Machine/Unpack.antt =====
-- The payloads of src/raft/raft_state_machine.cpp are read back as what they were made of.
use trans_db.Prelude.{
  ℕ, ◌-◌, ◌<◌, ◌≡◌, refl, inl, inr, List, [], ◌∷◌, ◌++◌, some, length, All, arith, Bool-cases,
  le→ltb, length-append, take-append_exact, drop-append_exact,
}
use trans_db.Bytes.{Bytes, u32_mod, u64_mod, append_le}
use trans_db.Bytes.RoundTrip.{
  length-append_le, read_le-append_le, consume_le-append_le, consume_bytes-append,
}
use trans_db.Machine.Batch.{
  PrepareBatchWrite, PrepareBatch, pack_txn_payload, pack_writes, pack_prepare_batch_payload,
  unpack_payload, unpack_write, unpack_writes, unpack_prepare_batch_payload,
}

unfoldable pub FitsBatchWrite : PrepareBatchWrite → Type 0
FitsBatchWrite w = (w.table_id < u32_mod) × (length w.key < u32_mod) × (length w.value < u32_mod)

unfoldable pub FitsBatch : PrepareBatch → Type 0
FitsBatch b =
    (b.raft_txn_id < u64_mod)
    × (b.snapshot_ts < u64_mod)
    × (b.commit_ts < u64_mod)
    × (length b.writes < u32_mod)
    × All FitsBatchWrite b.writes

pub unpack_payload-pack_txn_payload :
    (p : Bytes) (id : ℕ) → id < u64_mod → unpack_payload (pack_txn_payload p id) ≡ some (p, id)
unfolding unpack_payload pack_txn_payload
unpack_payload-pack_txn_payload p id h =
    let n : length (p ++ append_le 8 id) - 8 ≡ length p =
      omega (arith, length-append p (append_le 8 id), length-append_le 8 id) in
    rw
      (
        le→ltb (length (p ++ append_le 8 id)) 8
            (omega (arith, length-append p (append_le 8 id), length-append_le 8 id)),
        n,
        take-append_exact (length p) p (append_le 8 id) refl,
        drop-append_exact (length p) p (append_le 8 id) refl,
        read_le-append_le 8 id h,
      )
      refl

unpack_write-pack :
    (w : PrepareBatchWrite) (ws : List PrepareBatchWrite)
    → FitsBatchWrite w
    → unpack_write (pack_writes (w ∷ ws)) ≡ some (w, pack_writes ws)
unfolding unpack_write pack_writes FitsBatchWrite
unpack_write-pack w ws (ht, hk, hv) =
    let p₅ : Bytes = pack_writes ws in
    let p₄ : Bytes = w.value ++ p₅ in
    let p₃ : Bytes = append_le 4 (length w.value) ++ p₄ in
    let p₂ : Bytes = w.key ++ p₃ in
    let p₁ : Bytes = append_le 4 (length w.key) ++ p₂ in
    rw
      (
        consume_le-append_le 4 w.table_id p₁ ht,
        consume_le-append_le 4 (length w.key) p₂ hk,
        consume_bytes-append (length w.key) w.key p₃ refl,
        consume_le-append_le 4 (length w.value) p₄ hv,
        consume_bytes-append (length w.value) w.value p₅ refl,
      )
      (elim (Bool-cases w.is_delete) [ inl q ↦ ground (arith, q) | inr q ↦ ground (arith, q) ])

unpack_writes-pack_writes :
    (ws : List PrepareBatchWrite)
    → All FitsBatchWrite ws
    → unpack_writes (length ws) (pack_writes ws) ≡ some ws
unfolding unpack_writes
unpack_writes-pack_writes [] h = refl
unpack_writes-pack_writes (w ∷ ws) h =
    rw (unpack_write-pack w ws h.0, unpack_writes-pack_writes ws h.1) refl

-- The payload of a batch is read back as the batch it was made of, whatever bytes its keys and
-- values hold, if the numbers, lengths and the count fit their fields.
pub unpack_prepare_batch_payload-pack :
    (b : PrepareBatch)
    → FitsBatch b
    → unpack_prepare_batch_payload (pack_prepare_batch_payload b) ≡ some b
unfolding unpack_prepare_batch_payload pack_prepare_batch_payload FitsBatch
unpack_prepare_batch_payload-pack b (hr, hs, hc, hn, hw) =
    let p₄ : Bytes = pack_writes b.writes in
    let p₃ : Bytes = append_le 4 (length b.writes) ++ p₄ in
    let p₂ : Bytes = append_le 8 b.commit_ts ++ p₃ in
    let p₁ : Bytes = append_le 8 b.snapshot_ts ++ p₂ in
    rw
      (
        consume_le-append_le 8 b.raft_txn_id p₁ hr,
        consume_le-append_le 8 b.snapshot_ts p₂ hs,
        consume_le-append_le 8 b.commit_ts p₃ hc,
        consume_le-append_le 4 (length b.writes) p₄ hn,
        unpack_writes-pack_writes b.writes hw,
      )
      refl
