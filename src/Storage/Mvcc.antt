-- ===== src/Storage/Mvcc.antt =====
-- `MVCCStore` of src/storage/mvcc_store.cpp over a RocksDB: `Put`, `Delete`, `Get`, `ReplayPut`.
-- `io_ok` is whether RocksDB reports success; a write that fails is taken to change nothing.
use trans_db.Prelude.{
  ℕ, Bool, false, ◌&&◌, Option, none, some, List, [], ◌∷◌, leb, ◌==◌, ◌=l=◌, if◌then◌else◌, Status,
  ok, io_error,
}
use trans_db.Bytes.{Bytes}
use trans_db.Storage.Key.{encode_key, encode_key_prefix_newest, decode_key}
use trans_db.Storage.Rocks.{Rocks, Entry, seek}

-- `kTombstone`
abbrev pub tombstone : Bytes
tombstone = 0 ∷ []

-- `MVCCStore::IsTombstone`
unfoldable pub is_tombstone : Bytes → Bool
is_tombstone [] = false
is_tombstone (b ∷ []) = b == 0
is_tombstone (b ∷ c ∷ bs) = false

-- The loop of `Get` over what the iterator visits from the seek on. `none` is `NotFound`.
unfoldable pub get_loop : ℕ → Bytes → ℕ → List Entry → Option (Bytes × ℕ)
unfolding is_tombstone
get_loop table_id key snapshot_ts [] = none
get_loop table_id key snapshot_ts ((k, v) ∷ rest) = elim (decode_key k) [
  | none ↦ none
  | some d ↦
      if (d.table_id == table_id) && (d.primary_key =l= key)
      then (if leb d.write_ts snapshot_ts
          then (if is_tombstone v then none else some (v, d.write_ts))
          else get_loop table_id key snapshot_ts rest)
      else none
]

module _ (R : Rocks) where
  open R use {Db, entries}

  -- `MVCCStore::Put`
  unfoldable pub put : Db → ℕ → Bytes → ℕ → Bytes → Bool → Db × Status
  put d table_id key write_ts value io_ok =
      if io_ok then (R.put d (encode_key table_id key write_ts) value, ok) else (d, io_error)

  -- `MVCCStore::Delete`
  unfoldable pub delete : Db → ℕ → Bytes → ℕ → Bool → Db × Status
  delete d table_id key write_ts io_ok =
      if io_ok then (R.put d (encode_key table_id key write_ts) tombstone, ok) else (d, io_error)

  -- `MVCCStore::ReplayPut`
  unfoldable pub replay_put : Db → ℕ → Bytes → ℕ → Bytes → Bool → Db × Status
  unfolding put
  replay_put d table_id key write_ts value io_ok = put d table_id key write_ts value io_ok

  -- `MVCCStore::Get`
  unfoldable pub get : Db → ℕ → Bytes → ℕ → Option (Bytes × ℕ)
  get d table_id key snapshot_ts =
      get_loop table_id key snapshot_ts (seek (encode_key_prefix_newest table_id key) (entries d))
