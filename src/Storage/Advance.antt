-- ===== src/Storage/Advance.antt =====
-- `Advance` and `Next` of src/storage/mvcc_iterator.cpp: each step goes to the next row of the pass over
-- the entries, and a client that drains the iterator gets them all.
use trans_db.Prelude.{◌≡◌, true, false, none, List, [], ◌∷◌}
use trans_db.Bytes.{Bytes}
use trans_db.Storage.Rocks.{Rocks}
use trans_db.Storage.Iterator.{Range, Row, MvccIterator, skip_pk}
use trans_db.Storage.Scanned.{Decodes, rows_of}

-- An iterator that stands at a row of the pass, with the rest of the pass before it.
unfoldable IsAt : Range → MvccIterator → List Row → Type 0
IsAt q it [] = it.valid ≡ false
IsAt q it (row ∷ rows) =
    (it.valid ≡ true)
    × (it.current ≡ row)
    × (rows_of q none it.rest ≡ rows)
    × (skip_pk q.table_id row.pk it.rest ≡ it.rest)
    × Decodes it.rest
