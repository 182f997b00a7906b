-- ===== src/Tests/Consensus.antt =====
-- Runs of the theorems on the replicated log, src/raft/raft_log.cpp.
use trans_db.Prelude.{◌≡◌, refl, true, false, [], ◌∷◌, ◌++◌, take, drop, arith}
use trans_db.Bytes.{append_le}
use trans_db.Raft.Log.{noop, txn_begin, RaftLogEntry, Entries, append_entries}
use trans_db.Raft.Log.Index.{IsContiguous}
use trans_db.Raft.Log.Merge.{
  graft, append_entries-graft, append_entries_stale, append_entries-IsContiguous,
}
use trans_db.Raft.Log.File.{
  file_of, load, load-file_of, entry_type_byte, entry_type_of_byte, serialize_raft_entry,
}

abbrev pub e₁ : RaftLogEntry
e₁ = record { index = 1; term = 1; type = noop; payload = [] }

abbrev pub e₂ : RaftLogEntry
e₂ = record { index = 2; term = 1; type = txn_begin; payload = 5 ∷ [] }

abbrev pub e₂' : RaftLogEntry
e₂' = record { index = 2; term = 2; type = noop; payload = [] }

abbrev pub e₃ : RaftLogEntry
e₃ = record { index = 3; term = 2; type = noop; payload = [] }

abbrev pub two : Entries
two = e₁ ∷ e₂ ∷ []

-- A conflict at the index 2.
append_entries-graft_example :
    (append_entries two false ((e₂', true) ∷ [])).0
    ≡ take 1 two ++ graft (drop 1 two) ((e₂', true) ∷ [])
append_entries-graft_example =
    append_entries-graft two 1 ((e₂', true) ∷ []) (refl, (refl, tt)) (omega arith) (refl, tt)

-- The entry that is there already, sent again.
append_entries_stale_example : (append_entries two false ((e₂, true) ∷ [])).0 ≡ two
append_entries_stale_example =
    append_entries_stale two 1 ((e₂, true) ∷ []) (refl, (refl, tt)) (omega arith) (refl, tt)
      (refl, tt)

-- A write that fails.
append_entries-IsContiguous_example : IsContiguous (append_entries two false ((e₃, false) ∷ [])).0
append_entries-IsContiguous_example =
    append_entries-IsContiguous two 2 ((e₃, false) ∷ []) (refl, (refl, tt)) (omega arith) (refl, tt)

load-file_of_example : load 100 (file_of (e₂ ∷ []) ++ 9 ∷ []) ≡ e₂ ∷ []
unfolding entry_type_byte entry_type_of_byte file_of serialize_raft_entry append_le
load-file_of_example =
    load-file_of (e₂ ∷ []) (9 ∷ []) 100
      ((omega arith, omega arith, omega arith, refl, omega arith), tt) (omega arith) (omega arith)
