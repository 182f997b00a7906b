-- ===== src/Sql/Catalog.antt =====
-- src/coordinator/catalog.cpp, and the lookup of columns in src/coordinator/row_codec.cpp.
use trans_db.Prelude.{
  ℕ, suc, ◌+◌, ◌%◌, max, Bool, true, false, Option, none, some, List, [], ◌∷◌, get_elem?, ltb, ◌==◌,
  ◌=l=◌, if◌then◌else◌, ◌>>=◌,
}
use trans_db.Bytes.{Bytes, u32_mod}
use trans_db.Coord.Shards.{fnv_loop}
use trans_db.Sql.Syntax.{ColumnDef}

pub record TableDef : Type 0 where
  pub table_id : ℕ
  pub name : Bytes
  pub columns : List ColumnDef
  pub primary_key : Bytes

-- `tables` lists the values of `tables_`, each under its name.
pub record Catalog : Type 0 where
  pub next_table_id : ℕ
  pub tables : List TableDef
  pub id_to_name : ℕ → Option Bytes

unfoldable pub find_table : Bytes → List TableDef → Option TableDef
find_table name [] = none
find_table name (t ∷ ts) =
    let later = find_table name ts in if t.name =l= name then some t else later

unfoldable pub has_column : Bytes → List ColumnDef → Bool
has_column name [] = false
has_column name (c ∷ cs) = let later = has_column name cs in if c.name =l= name then true else later

-- `CreateTable`
unfoldable pub create_table : Catalog → Bytes → List ColumnDef → Bytes → Catalog × ℕ
create_table c name columns primary_key =
    let id = c.next_table_id in
    let def : TableDef = record {
      table_id = id;
      name = name;
      columns = columns;
      primary_key = primary_key;
    } in
    let created : Catalog = record {
      next_table_id = (id + 1) % u32_mod;
      tables = def ∷ c.tables;
      id_to_name = λ i. if i == id then some name else c.id_to_name i;
    } in
    elim (find_table name c.tables) [
      | some t ↦ (c, 0)
      | none ↦ if has_column primary_key columns then (created, id) else (c, 0)
    ]

-- `GetTable`
unfoldable pub get_table : Catalog → Bytes → Option TableDef
get_table c name = find_table name c.tables

-- `GetTableById`
unfoldable pub get_table_by_id : Catalog → ℕ → Option TableDef
get_table_by_id c table_id = do name ← c.id_to_name table_id; find_table name c.tables

unfoldable pub insert_table : TableDef → List TableDef → List TableDef
insert_table t [] = t ∷ []
insert_table t (u ∷ us) =
    let rest = insert_table t us in if ltb u.table_id t.table_id then u ∷ rest else t ∷ u ∷ us

unfoldable pub sort_tables : List TableDef → List TableDef
sort_tables [] = []
sort_tables (t ∷ ts) = insert_table t (sort_tables ts)

-- `ListTables`
unfoldable pub list_tables : Catalog → List TableDef
list_tables c = sort_tables c.tables

-- The part behind the last point, if there is one.
unfoldable pub after_last_point : Bytes → Option Bytes
after_last_point [] = none
after_last_point (c ∷ cs) =
    let later = after_last_point cs in
    elim later [ some base ↦ some base | none ↦ if c == 46 then some cs else none ]

-- `BaseColumnName`
unfoldable pub base_column_name : Bytes → Bytes
base_column_name name = elim (after_last_point name) [ none ↦ name | some base ↦ base ]

unfoldable pub column_position : Bytes → List ColumnDef → Option ℕ
column_position base [] = none
column_position base (c ∷ cs) =
    let later = column_position base cs in
    if c.name =l= base then some 0 else (elim later [ none ↦ none | some i ↦ some (suc i) ])

-- `ColumnIndexByName`; `none` is -1.
unfoldable pub column_index_by_name : TableDef → Bytes → Option ℕ
column_index_by_name table name = column_position (base_column_name name) table.columns

-- `CellValueForJoinColumn`
unfoldable pub cell_value_for_join_column : TableDef → List Bytes → Bytes → Bytes
cell_value_for_join_column table cells join_column = elim (column_index_by_name table join_column) [
  | none ↦ []
  | some i ↦ elim (get_elem? cells i) [ none ↦ [] | some cell ↦ cell ]
]

-- `HashJoinKey`
unfoldable pub hash_join_key : Bytes → ℕ → ℕ
hash_join_key key num_shards = fnv_loop 14695981039346656037 key % max 1 num_shards
