-- ===== src/Sql/Tables.antt =====
-- The catalog of src/coordinator/catalog.cpp: its two maps agree.
use trans_db.Prelude.{
  ℕ, ◌+◌, ◌%◌, ◌<◌, ◌≡◌, ◌≢◌, ap, true, none, some, List, ◌∷◌, ◌==◌, ◌=l=◌, if◌then◌else◌, arith,
  Option-cases, Bool-cases, inl, inr, =l=_refl, =l=_iff, ==_refl,
}
use trans_db.Bytes.{Bytes, u32_mod}
use trans_db.Sql.Syntax.{ColumnDef}
use trans_db.Sql.Catalog.{
  TableDef, Catalog, find_table, has_column, create_table, get_table, get_table_by_id,
}

-- Ids are below the next one and not 0, and an id leads to the table that has it.
unfoldable pub IsWellFormed : Catalog → Type 0
IsWellFormed c =
    (0 < c.next_table_id)
    × ((name : Bytes) (t : TableDef)
        → find_table name c.tables ≡ some t
        → (t.name ≡ name)
          × (0 < t.table_id)
          × (t.table_id < c.next_table_id)
          × (c.id_to_name t.table_id ≡ some name))
    × ((i : ℕ) (name : Bytes)
        → c.id_to_name i ≡ some name
        → (i < c.next_table_id)
          × ((t : TableDef) × (find_table name c.tables ≡ some t) × (t.table_id ≡ i)))

module _ (c : Catalog) (name : Bytes) (columns : List ColumnDef) (primary_key : Bytes) where
  -- A table that is created has an id of its own, and both lookups find it.
  pub create_table-get_table :
      0 < c.next_table_id
      → (create_table c name columns primary_key).1 ≢ 0
      → let (c', id) = create_table c name columns primary_key in
        let def : TableDef = record {
          table_id = id;
          name = name;
          columns = columns;
          primary_key = primary_key;
        } in
        (get_table c' name ≡ some def)
        × (get_table_by_id c' id ≡ some def)
        × (get_table c name ≡ none)
  unfolding create_table get_table get_table_by_id find_table
  create_table-get_table pos made = elim (Option-cases (find_table name c.tables)) [
    | inr (t, e) ↦ absurd (made (ground (arith, e)))
    | inl e ↦ elim (Bool-cases (has_column primary_key columns)) [
      | inr k ↦ absurd (made (ground (arith, e, k)))
      | inl k ↦ ground (arith, e, k, =l=_refl name, ==_refl c.next_table_id)
    ]
  ]

  -- While ids are left, `CreateTable` keeps the catalog well formed: every id is above 0 and below
  -- the next one, a table found under a name has that name, and its id leads back to the name;
  -- every id leads to the table that has it.
  pub create_table-IsWellFormed :
      c.next_table_id + 1 < u32_mod
      → IsWellFormed c
      → IsWellFormed (create_table c name columns primary_key).0
  unfolding create_table IsWellFormed find_table
  create_table-IsWellFormed small (pos, by_name, by_id) =
      elim (Option-cases (find_table name c.tables)) [
        | inr (t, e) ↦ rw (create_table, e) (pos, by_name, by_id)
        | inl e ↦ elim (Bool-cases (has_column primary_key columns)) [
          | inr k ↦ rw (create_table, e, k) (pos, by_name, by_id)
          | inl k ↦
              rw (create_table, e, k)
                (
                  omega (arith, small),
                  (λ name' t h. named name' t h (by_name name' t)),
                  (λ i name' h. numbered i name' h e (by_id i name')),
                )
        ]
      ]
    where
      def : TableDef
      def = record {
        table_id = c.next_table_id;
        name = name;
        columns = columns;
        primary_key = primary_key;
      }

      other_name :
          (name' : Bytes) (t : TableDef)
          → find_table name' c.tables ≡ some t
          → find_table name c.tables ≡ none
          → find_table name' (def ∷ c.tables) ≡ some t
      other_name name' t at fresh = elim (Bool-cases (name =l= name')) [
        | inl s ↦
            let same : name ≡ name' = (=l=_iff name name').0 s in
            absurd (cc (ap (λ n. find_table n c.tables) same, at, fresh))
        | inr s ↦ ground (arith, s, at)
      ]

      named :
          (name' : Bytes) (t : TableDef)
          → find_table name' (def ∷ c.tables) ≡ some t
          → (find_table name' c.tables ≡ some t
              → (t.name ≡ name')
                × (0 < t.table_id)
                × (t.table_id < c.next_table_id)
                × (c.id_to_name t.table_id ≡ some name'))
          → (t.name ≡ name')
            × (0 < t.table_id)
            × (t.table_id < (c.next_table_id + 1) % u32_mod)
            × ((if t.table_id == c.next_table_id then some name else c.id_to_name t.table_id)
                ≡ some name')
      named name' t h old = elim (Bool-cases (name =l= name')) [
        | inl s ↦
            let same : name ≡ name' = (=l=_iff name name').0 s in
            ground (arith, h, s, same, pos, small, ==_refl c.next_table_id)
        | inr s ↦ let found = old (ground (arith, h, s)) in ground (arith, found, small)
      ]

      numbered :
          (i : ℕ) (name' : Bytes)
          → (if i == c.next_table_id then some name else c.id_to_name i) ≡ some name'
          → find_table name c.tables ≡ none
          → (c.id_to_name i ≡ some name'
              → (i < c.next_table_id)
                × ((t : TableDef) × (find_table name' c.tables ≡ some t) × (t.table_id ≡ i)))
          → (i < (c.next_table_id + 1) % u32_mod)
            × ((t : TableDef) × (find_table name' (def ∷ c.tables) ≡ some t) × (t.table_id ≡ i))
      numbered i name' h fresh old = elim (Bool-cases (i == c.next_table_id)) [
        | inl s ↦
            let same : name ≡ name' = ground (arith, h, s) in
            let whole : (name =l= name') ≡ true = (=l=_iff name name').1 same in
            (ground (arith, s, small), (def, ground (arith, whole), ground (arith, s)))
        | inr s ↦
            let found = old (ground (arith, h, s)) in
            let (below, (t, at, has_id)) = found in
            (omega (arith, below, small), (t, other_name name' t at fresh, has_id))
      ]
