-- ===== src/Raft/Log.antt =====
-- `RaftLog` of src/raft/raft_log.h and src/raft/raft_log.cpp: the entries in memory. `wrote` and
-- `synced` are what `AppendEntryToFile` and `SyncFileLocked` return; a log without a path has none of
-- the two fail. The file's format is in the child File.
pub mod Index
pub mod Round
pub mod Merge
pub mod File
use trans_db.Prelude.{
  ℕ, zero, suc, ◌+◌, ◌-◌, ◌≡◌, Bool, true, false, ◌&&◌, ◌||◌, not, Option, none, some, List, [],
  ◌∷◌, ◌++◌, get_elem?, take, length, ltb, leb, ◌==◌, if◌then◌else◌, max, min,
}
use trans_db.Bytes.{Bytes}

-- `RaftEntryType`; the enum's underlying type holds any byte.
pub data RaftEntryType : Type 0 where
  txn_begin txn_write txn_delete txn_prepare txn_commit txn_abort noop txn_prepare_batch :
      RaftEntryType
  other : ℕ → RaftEntryType

pub record RaftLogEntry : Type 0 where
  pub index : ℕ
  pub term : ℕ
  pub type : RaftEntryType
  pub payload : Bytes

abbrev pub Entries : Type 0
Entries = List RaftLogEntry

-- `entries_.back().index`, and `d` for an empty log.
unfoldable pub back_index : ℕ → Entries → ℕ
back_index d [] = d
back_index d (e ∷ es) = back_index e.index es

-- `entries_.front().index`, read only where the log is not empty.
unfoldable pub front_index : Entries → ℕ
front_index [] = 0
front_index (e ∷ es) = e.index

abbrev pub is_nil : Entries → Bool
is_nil [] = true
is_nil (e ∷ es) = false

-- `LastIndex`
unfoldable pub last_index : Entries → ℕ
unfolding back_index
last_index es = back_index 0 es

-- `TermAt`
unfoldable pub term_at : Entries → ℕ → ℕ
unfolding back_index front_index
term_at es index =
    if (index == 0) || is_nil es
    then 0
    else if ltb index (front_index es) || ltb (back_index 0 es) index
    then 0
    else (elim (get_elem? es (index - front_index es)) [ none ↦ 0 | some e ↦ e.term ])

-- `Get`
unfoldable pub get : Entries → ℕ → Option RaftLogEntry
unfolding back_index front_index
get es index =
    if (index == 0) || (is_nil es || ltb (back_index 0 es) index)
    then none
    else if ltb index (front_index es)
    then none
    else get_elem? es (index - front_index es)

-- The loop of `GetRange`: `count` entries from the position `i` on.
unfoldable pub collect : Entries → ℕ → ℕ → Entries
collect es i zero = []
collect es i (suc count) = elim (get_elem? es i) [
  | none ↦ []
  | some e ↦ e ∷ collect es (i + 1) count
]

-- `GetRange`
unfoldable pub get_range : Entries → ℕ → ℕ → Entries
unfolding back_index front_index collect
get_range es start_index end_index =
    if is_nil es || ((start_index == 0) || ltb end_index start_index)
    then []
    else let s = max start_index (front_index es) in
      let e = min end_index (back_index 0 es) in collect es (s - front_index es) (e + 1 - s)

-- `Append`: the log and the index, which is 0 for a failure. An entry whose sync failed stays.
unfoldable pub append : Entries → ℕ → RaftEntryType → Bytes → Bool → Bool → Entries × ℕ
unfolding back_index
append es term type payload wrote synced =
    let idx = if is_nil es then 1 else back_index 0 es + 1 in
    let es' = es ++ record { index = idx; term = term; type = type; payload = payload } ∷ [] in
    if wrote then (if synced then (es', idx) else (es', 0)) else (es, 0)

-- `TruncateFrom`
unfoldable pub truncate_from : Entries → ℕ → Entries
unfolding back_index front_index
truncate_from es index =
    if is_nil es || ((index == 0) || ltb (back_index 0 es) index)
    then es
    else if leb (length es) (index - front_index es)
    then es
    else take (index - front_index es) es

-- The end of a round of `AppendEntries`: the index is checked, and the entry is pushed unless it
-- would go to the file by itself and that fails.
unfoldable pub push_expected : Entries → Bool → Bool → RaftLogEntry → Entries × Bool
unfolding back_index
push_expected es needs_rewrite wrote e =
    let expect = if is_nil es then 1 else back_index 0 es + 1 in
    if e.index == expect
    then (if needs_rewrite || wrote then (es ++ e ∷ [], needs_rewrite) else (es, needs_rewrite))
    else (es, needs_rewrite)

-- One round of the loop of `AppendEntries`: the entries and `needs_rewrite`. An offset past the end,
-- which is undefined in the source, is read as no conflict.
unfoldable pub append_one : Entries → Bool → Bool → RaftLogEntry → Entries × Bool
unfolding back_index front_index push_expected
append_one es needs_rewrite wrote e =
    if not (is_nil es) && leb e.index (back_index 0 es)
    then (elim (get_elem? es (e.index - front_index es)) [
      | none ↦ (es, needs_rewrite)
      | some old ↦
          if old.term == e.term
          then (es, needs_rewrite)
          else push_expected (take (e.index - front_index es) es) true wrote e
    ])
    else push_expected es needs_rewrite wrote e

-- `AppendEntries`, with the outcome of the write for each entry.
unfoldable pub append_entries : Entries → Bool → List (RaftLogEntry × Bool) → Entries × Bool
unfolding append_one
append_entries es needs_rewrite [] = (es, needs_rewrite)
append_entries es needs_rewrite ((e, wrote) ∷ rest) =
    let (es', needs') = append_one es needs_rewrite wrote e in append_entries es' needs' rest
