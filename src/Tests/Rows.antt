-- ===== src/Tests/Rows.antt =====
-- Runs of the theorems on rows, src/coordinator/row_codec.cpp.
use trans_db.Prelude.{◌≡◌, false, List, [], ◌∷◌, map, arith}
use trans_db.Bytes.{Bytes}
use trans_db.Storage.Mvcc.{is_tombstone}
use trans_db.Row.{find_cell, cell_of, serialize_row, deserialize_stored_row}
use trans_db.Row.RoundTrip.{deserialize_stored_row-serialize_row}

-- The columns 1, 2 and 3, of which 3 has no value and 2 has two.
abbrev columns : List Bytes
columns = (1 ∷ []) ∷ (2 ∷ []) ∷ (3 ∷ []) ∷ []

abbrev values : List (Bytes × Bytes)
values = (1 ∷ [], 9 ∷ []) ∷ (2 ∷ [], 8 ∷ []) ∷ (2 ∷ [], 7 ∷ 7 ∷ []) ∷ []

deserialize_stored_row-serialize_row_example :
    (deserialize_stored_row (serialize_row columns values) ≡ map (cell_of values) columns)
    × (is_tombstone (serialize_row columns values) ≡ false)
unfolding cell_of find_cell
deserialize_stored_row-serialize_row_example =
    deserialize_stored_row-serialize_row columns values (omega arith)
      (omega arith, (omega arith, (omega arith, tt)))
