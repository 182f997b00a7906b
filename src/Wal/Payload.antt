-- ===== src/Wal/Payload.antt =====
-- The payloads of src/txn/wal.cpp: what each kind of record carries, written and read back.
use trans_db.Prelude.{
  ℕ, ◌+◌, ◌<◌, ◌≡◌, refl, [], ◌++◌, Option, none, some, length, take, drop, ltb, if◌then◌else◌,
  arith, ◌==◌, append-nil, ◌>>=◌, le→ltb, length-append, take-append_exact, drop-append_exact,
}
use trans_db.Bytes.{Bytes, u32_mod, u64_mod, append_le, consume_le, is_empty}
use trans_db.Bytes.RoundTrip.{length-append_le, consume_le-append_le}

pub record WriteInfo : Type 0 where
  pub table_id : ℕ
  pub key : Bytes
  pub value : Bytes
  pub write_ts : ℕ

pub record DeleteInfo : Type 0 where
  pub table_id : ℕ
  pub key : Bytes
  pub write_ts : ℕ

-- BEGIN, PREPARE and COMMIT payloads: one timestamp.
unfoldable pub serialize_begin_payload : ℕ → Bytes
serialize_begin_payload snapshot_ts = append_le 8 snapshot_ts

unfoldable pub serialize_prepare_payload : ℕ → Bytes
serialize_prepare_payload commit_ts = append_le 8 commit_ts

unfoldable pub serialize_commit_payload : ℕ → Bytes
serialize_commit_payload commit_ts = append_le 8 commit_ts

unfoldable pub serialize_write_payload : ℕ → Bytes → Bytes → ℕ → Bytes
serialize_write_payload table_id key value write_ts =
    append_le 4 table_id
    ++ (append_le 4 (length key)
        ++ (key ++ (append_le 4 (length value) ++ (value ++ append_le 8 write_ts))))

unfoldable pub serialize_delete_payload : ℕ → Bytes → ℕ → Bytes
serialize_delete_payload table_id key write_ts =
    append_le 4 table_id ++ (append_le 4 (length key) ++ (key ++ append_le 8 write_ts))

-- `ConsumeLe64(&pv, &x) && pv.empty()`
consume_last_u64 : Bytes → Option ℕ
consume_last_u64 pv = do (ts, rest) ← consume_le 8 pv; if is_empty rest then some ts else none

unfoldable pub deserialize_begin_payload : Bytes → Option ℕ
unfolding consume_last_u64
deserialize_begin_payload payload = if length payload == 8 then consume_last_u64 payload else none

unfoldable pub deserialize_prepare_payload : Bytes → Option ℕ
unfolding consume_last_u64
deserialize_prepare_payload payload = consume_last_u64 payload

unfoldable pub deserialize_commit_payload : Bytes → Option ℕ
unfolding consume_last_u64
deserialize_commit_payload payload = consume_last_u64 payload

unfoldable pub deserialize_write_payload : Bytes → Option WriteInfo
unfolding consume_last_u64
deserialize_write_payload payload = do
  (tid, pv₁) ← consume_le 4 payload
  (klen, pv₂) ← consume_le 4 pv₁
  if ltb (length pv₂) klen then none else do
    let pv₃ = drop klen pv₂
    (vlen, pv₄) ← consume_le 4 pv₃
    if ltb (length pv₄) (vlen + 8) then none else do
      wts ← consume_last_u64 (drop vlen pv₄)
      some (record { table_id = tid; key = take klen pv₂; value = take vlen pv₄; write_ts = wts })

unfoldable pub deserialize_delete_payload : Bytes → Option DeleteInfo
unfolding consume_last_u64
deserialize_delete_payload payload = do
  (tid, pv₁) ← consume_le 4 payload
  (klen, pv₂) ← consume_le 4 pv₁
  if ltb (length pv₂) (klen + 8) then none else do
    wts ← consume_last_u64 (drop klen pv₂)
    some (record { table_id = tid; key = take klen pv₂; write_ts = wts })

consume_last_u64-append_le : (v : ℕ) → v < u64_mod → consume_last_u64 (append_le 8 v) ≡ some v
unfolding consume_last_u64
consume_last_u64-append_le v h = rw (← append-nil (append_le 8 v), consume_le-append_le 8 v [] h)

-- A timestamp below 2^64 that is written as the payload of BEGIN is read back.
pub deserialize_begin-serialize :
    (ts : ℕ) → ts < u64_mod → deserialize_begin_payload (serialize_begin_payload ts) ≡ some ts
unfolding deserialize_begin_payload serialize_begin_payload
deserialize_begin-serialize ts h = rw (length-append_le 8 ts) (consume_last_u64-append_le ts h)

pub deserialize_prepare-serialize :
    (ts : ℕ) → ts < u64_mod → deserialize_prepare_payload (serialize_prepare_payload ts) ≡ some ts
unfolding deserialize_prepare_payload serialize_prepare_payload
deserialize_prepare-serialize ts h = consume_last_u64-append_le ts h

pub deserialize_commit-serialize :
    (ts : ℕ) → ts < u64_mod → deserialize_commit_payload (serialize_commit_payload ts) ≡ some ts
unfolding deserialize_commit_payload serialize_commit_payload
deserialize_commit-serialize ts h = consume_last_u64-append_le ts h

abbrev pub FitsWrite : WriteInfo → Type 0
FitsWrite w =
    (w.table_id < u32_mod)
    × (length w.key < u32_mod)
    × (length w.value < u32_mod)
    × (w.write_ts < u64_mod)

-- The payload of a WRITE record is read back as the table, key, value and timestamp it was made
-- of, whatever bytes the key and the value hold, if the numbers fit their fields.
pub deserialize_write-serialize :
    (w : WriteInfo)
    → FitsWrite w
    → deserialize_write_payload (serialize_write_payload w.table_id w.key w.value w.write_ts)
      ≡ some w
unfolding deserialize_write_payload serialize_write_payload
deserialize_write-serialize w (ht, hk, hv, hw) =
    let tail : Bytes = append_le 8 w.write_ts in
    let pv₄ : Bytes = w.value ++ tail in
    let pv₃ : Bytes =
      append_le 4 (length w.key) ++ (w.key ++ (append_le 4 (length w.value) ++ pv₄)) in
    let pv₂ : Bytes = append_le 4 (length w.value) ++ pv₄ in
    rw (
      consume_le-append_le 4 w.table_id pv₃ ht,
      consume_le-append_le 4 (length w.key) (w.key ++ pv₂) hk,
      le→ltb (length (w.key ++ pv₂)) (length w.key) (omega (arith, length-append w.key pv₂)),
      drop-append_exact (length w.key) w.key pv₂ refl,
      take-append_exact (length w.key) w.key pv₂ refl,
      consume_le-append_le 4 (length w.value) pv₄ hv,
      le→ltb (length pv₄) (length w.value + 8)
          (omega (arith, length-append w.value tail, length-append_le 8 w.write_ts)),
      drop-append_exact (length w.value) w.value tail refl,
      take-append_exact (length w.value) w.value tail refl,
      consume_last_u64-append_le w.write_ts hw,
    )

abbrev pub FitsDelete : DeleteInfo → Type 0
FitsDelete d = (d.table_id < u32_mod) × (length d.key < u32_mod) × (d.write_ts < u64_mod)

-- The payload of a DELETE record is read back as the table, key and timestamp it was made of, if
-- the numbers fit their fields.
pub deserialize_delete-serialize :
    (d : DeleteInfo)
    → FitsDelete d
    → deserialize_delete_payload (serialize_delete_payload d.table_id d.key d.write_ts) ≡ some d
unfolding deserialize_delete_payload serialize_delete_payload
deserialize_delete-serialize d (ht, hk, hw) =
    let tail : Bytes = append_le 8 d.write_ts in
    rw (
      consume_le-append_le 4 d.table_id (append_le 4 (length d.key) ++ (d.key ++ tail)) ht,
      consume_le-append_le 4 (length d.key) (d.key ++ tail) hk,
      le→ltb (length (d.key ++ tail)) (length d.key + 8)
          (omega (arith, length-append d.key tail, length-append_le 8 d.write_ts)),
      drop-append_exact (length d.key) d.key tail refl,
      take-append_exact (length d.key) d.key tail refl,
      consume_last_u64-append_le d.write_ts hw,
    )
