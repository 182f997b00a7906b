-- ===== src/Row.antt =====
-- The bytes of a stored row: `SerializeRow` of src/coordinator/executor.cpp and `DeserializeStoredRow`
-- of src/coordinator/row_codec.cpp. A literal stands here as the string that it is turned into.
pub mod RoundTrip
use trans_db.Prelude.{
  ℕ, zero, suc, List, [], ◌∷◌, ◌++◌, map, Option, none, some, ◌>>=◌, length, ◌=l=◌, if◌then◌else◌,
}
use trans_db.Bytes.{Bytes, append_le, consume_le, consume_bytes}

-- The map from column names to values, where a later value takes the place of an earlier one; a name
-- that is not in it has the empty cell.
unfoldable pub find_cell : List (Bytes × Bytes) → Bytes → Option Bytes
find_cell [] name = none
find_cell ((n, v) ∷ rest) name =
    let later = find_cell rest name in
    elim later [ some c ↦ some c | none ↦ if n =l= name then some v else none ]

unfoldable pub cell_of : List (Bytes × Bytes) → Bytes → Bytes
unfolding find_cell
cell_of m name = elim (find_cell m name) [ none ↦ [] | some v ↦ v ]

-- The loop over the columns.
unfoldable pub append_cells : List Bytes → Bytes
append_cells [] = []
append_cells (c ∷ cs) = append_le 4 (length c) ++ (c ++ append_cells cs)

-- `SerializeRow`, on the names of the table's columns and the pairs of a name and a value.
unfoldable pub serialize_row : List Bytes → List (Bytes × Bytes) → Bytes
unfolding append_cells cell_of
serialize_row columns m = append_le 2 (length columns) ++ append_cells (map (cell_of m) columns)

-- The loop of `DeserializeStoredRow`.
unfoldable pub read_cells : ℕ → Bytes → Option (List Bytes)
read_cells zero bytes = some []
read_cells (suc n) bytes = do
  (len, d₁) ← consume_le 4 bytes
  (cell, d₂) ← consume_bytes len d₁
  row ← read_cells n d₂
  some (cell ∷ row)

-- `DeserializeStoredRow`
unfoldable pub deserialize_stored_row : Bytes → List Bytes
unfolding read_cells
deserialize_stored_row bytes = elim (consume_le 2 bytes) [
  | none ↦ []
  | some (n, rest) ↦ elim (read_cells n rest) [ none ↦ [] | some row ↦ row ]
]
