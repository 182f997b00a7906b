-- ===== src/Row/RoundTrip.antt =====
-- A stored row is read back as its cells, and is no tombstone.
use trans_db.Prelude.{
  ℕ, suc, ap, sym, ◌∙◌, ◌<◌, ◌^◌, ◌≡◌, refl, false, List, [], ◌∷◌, ◌++◌, map, some, length, All,
  arith,
}
use trans_db.Bytes.{Bytes, u32_mod, append_le, consume_le}
use trans_db.Bytes.RoundTrip.{consume_le-append_le, consume_bytes-append}
use trans_db.Storage.Mvcc.{is_tombstone}
use trans_db.Row.{cell_of, append_cells, serialize_row, read_cells, deserialize_stored_row}

length-map {ℓ κ} :
    {A : Type ℓ} {B : Type κ} (f : A → B) (xs : List A) → length (map f xs) ≡ length xs
length-map f [] = refl
length-map f (x ∷ xs) = ap suc (length-map f xs)

read_cells-append_cells :
    (cs : List Bytes)
    → All (λ c. length c < u32_mod) cs
    → read_cells (length cs) (append_cells cs) ≡ some cs
unfolding read_cells append_cells
read_cells-append_cells [] h = refl
read_cells-append_cells (c ∷ cs) h =
    rw
      (
        consume_le-append_le 4 (length c) (c ++ append_cells cs) h.0,
        consume_bytes-append (length c) c (append_cells cs) refl,
        read_cells-append_cells cs h.1,
      )
      refl

deserialize_stored_row_lem :
    (bytes rest : Bytes) (n : ℕ) (row : List Bytes)
    → consume_le 2 bytes ≡ some (n, rest)
    → read_cells n rest ≡ some row
    → deserialize_stored_row bytes ≡ row
unfolding deserialize_stored_row
deserialize_stored_row_lem bytes rest n row head cells = ground (arith, head, cells)

serialize_row_no_tombstone :
    (columns : List Bytes) (m : List (Bytes × Bytes))
    → is_tombstone (serialize_row columns m) ≡ false
unfolding serialize_row is_tombstone append_le
serialize_row_no_tombstone columns m = refl

-- A row that `SerializeRow` makes of fewer than 2^16 columns, with cells shorter than 2^32, is
-- read back as the cells in the columns' order, and its bytes are no tombstone.
pub deserialize_stored_row-serialize_row :
    (columns : List Bytes) (m : List (Bytes × Bytes))
    → length columns < 2 ^ 16
    → All (λ c. length c < u32_mod) (map (cell_of m) columns)
    → (deserialize_stored_row (serialize_row columns m) ≡ map (cell_of m) columns)
      × (is_tombstone (serialize_row columns m) ≡ false)
unfolding serialize_row
deserialize_stored_row-serialize_row columns m hn hc =
    let cells : List Bytes = map (cell_of m) columns in
    (
      deserialize_stored_row_lem (serialize_row columns m) (append_cells cells) (length columns)
          cells (consume_le-append_le 2 (length columns) (append_cells cells) hn)
          (ap (λ n. read_cells n (append_cells cells)) (sym (length-map (cell_of m) columns))
            ∙ read_cells-append_cells cells hc),
      serialize_row_no_tombstone columns m,
    )
