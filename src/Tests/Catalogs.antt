-- ===== src/Tests/Catalogs.antt =====
-- Runs of the theorems on the catalog, src/coordinator/catalog.cpp.
use trans_db.Prelude.{none, [], ◌∷◌, arith}
use trans_db.Sql.Syntax.{ColumnDef, int}
use trans_db.Sql.Catalog.{Catalog, create_table, find_table}
use trans_db.Sql.Tables.{IsWellFormed, create_table-IsWellFormed}

abbrev no_tables : Catalog
no_tables = record { next_table_id = 1; tables = []; id_to_name = λ i. none }

abbrev id_column : ColumnDef
id_column = record { name = 105 ∷ 100 ∷ []; type = int }

no_tables-IsWellFormed : IsWellFormed no_tables
unfolding IsWellFormed find_table
no_tables-IsWellFormed = (omega arith, (λ name t h. absurd cc), (λ i name h. absurd cc))

create_table-IsWellFormed_example :
    IsWellFormed (create_table no_tables (116 ∷ []) (id_column ∷ []) (105 ∷ 100 ∷ [])).0
create_table-IsWellFormed_example =
    create_table-IsWellFormed no_tables (116 ∷ []) (id_column ∷ []) (105 ∷ 100 ∷ []) (omega arith)
      no_tables-IsWellFormed
