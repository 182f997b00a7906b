-- ===== src/Sql/Parser.antt =====
-- The grammar of src/coordinator/parser.cpp. `Double` and `parse_double` stand for C++'s `double` and
-- for `ParseDouble`, which calls `std::stod`.
use trans_db.Prelude.{
  ℕ, zero, suc, ◌+◌, ◌-◌, ◌*◌, ◌^◌, Bool, ◌&&◌, Option, none, some, List, [], ◌∷◌, ◌++◌, length,
  ltb, ◌==◌, if◌then◌else◌,
}
use trans_db.Bytes.{Bytes}
use trans_db.Sql.Token.{
  TokenType, Token, ident, number_int, number_float, string_lit, lparen, rparen, comma, dot, eq, ne,
  lt, le, gt, ge, kw_create, kw_table, kw_insert, kw_into, kw_values, kw_and, kw_primary, kw_key,
  kw_int, kw_bigint, kw_float, kw_varchar, ◌=t=◌,
}
use trans_db.Sql.Lexer.{is_digit}
use trans_db.Sql.Syntax.{
  ColumnType, int, bigint, float, varchar, ColumnDef, CompareOp, LiteralExpr, int_literal,
  float_literal, string_literal, CompareExpr, CreateTableStmt, InsertStmt, expected_column_name,
  expected_column_type, primary_key_required, count_mismatch, expected_comparison, bad_integer,
  bad_float, expected_literal,
}
use trans_db.Sql.Cursor.{
  parsed, Parser, ◌>>=◌, return, peek, skip, throw, match, expect, while_match,
}

-- `ParseInt64` on what the tokenizer makes of a number: digits, without a sign.
unfoldable pub int64_loop : ℕ → Bytes → Option ℕ
int64_loop value [] = some value
int64_loop value (c ∷ cs) =
    let next = value * 10 + (c - 48) in
    let rest = int64_loop next cs in if is_digit c && ltb next (2 ^ 63) then rest else none

unfoldable pub parse_int64 : Bytes → Option ℕ
parse_int64 digits = let value = int64_loop 0 digits in if length digits == 0 then none else value

-- `ParseColumnRef`
unfoldable pub join_names : Bytes → List Token → Bytes
join_names out [] = out
join_names out (t ∷ ts) = join_names (out ++ (46 ∷ t.value)) ts

unfoldable pub parse_column_ref : Parser Bytes
parse_column_ref = do
  first ← expect ident
  more ← while_match dot (expect ident)
  return (join_names first.value more)

-- The comparison operator that a token stands for.
unfoldable pub compare_op : TokenType → Option CompareOp
compare_op eq = some CompareOp.eq
compare_op ne = some CompareOp.ne
compare_op lt = some CompareOp.lt
compare_op le = some CompareOp.le
compare_op gt = some CompareOp.gt
compare_op ge = some CompareOp.ge
compare_op _ = none

-- `ParseColumnDef`, the part of a column definition behind its name.
unfoldable pub parse_column_type : Parser ColumnType
parse_column_type = do
  type ← peek
  elim (type.type) [
    | kw_int ↦ (do _ ← skip; return int)
    | kw_bigint ↦ (do _ ← skip; return bigint)
    | kw_float ↦ (do _ ← skip; return float)
    | kw_varchar ↦ (do
      _ ← skip
      sized ← match lparen
      _ ← if sized then (do _ ← expect number_int; _ ← expect rparen; return tt) else return tt
      return varchar)
    | _ ↦ throw expected_column_type type.pos
  ]

-- One column, and whether it is the primary key.
unfoldable pub parse_column : Parser (ColumnDef × Bool)
parse_column = do
  name ← peek
  if name.type =t= ident
      then (do
        _ ← skip
        type ← parse_column_type
        is_key ← match kw_primary
        _ ← if is_key then (do _ ← expect kw_key; return tt) else return tt
        return (record { name = name.value; type = type }, is_key))
      else throw expected_column_name name.pos

-- The loop of `ParseCreateTable`, on fuel: a column, then the end of the list or a comma.
unfoldable pub columns_loop : ℕ → Parser (List (ColumnDef × Bool))
columns_loop zero ts = parsed [] ts
columns_loop (suc f) ts =
    (do
      column ← parse_column
      done ← match rparen
      if done
          then return (column ∷ [])
          else (do _ ← expect comma; rest ← columns_loop f; return (column ∷ rest)))
      ts

unfoldable pub column_defs : List (ColumnDef × Bool) → List ColumnDef
column_defs [] = []
column_defs ((column, is_key) ∷ columns) = column ∷ column_defs columns

-- The name of the last column that is declared as the primary key.
unfoldable pub key_name : Bytes → List (ColumnDef × Bool) → Bytes
key_name name [] = name
key_name name ((column, is_key) ∷ columns) = key_name (if is_key then column.name else name) columns

module _ (Double : Type 0) (parse_double : Bytes → Option Double) where
  -- `ParseCreateTable`
  unfoldable pub parse_create_table : Parser (CreateTableStmt Double)
  parse_create_table = do
    _ ← expect kw_create
    _ ← expect kw_table
    name ← expect ident
    _ ← expect lparen
    columns ← λ ts. columns_loop (length ts) ts
    if length (key_name [] columns) == 0
        then throw primary_key_required name.pos
        else return (record {
          table_name = name.value;
          columns = column_defs columns;
          primary_key = key_name [] columns;
        })

  -- `ParseLiteral`
  unfoldable pub parse_literal : Parser (LiteralExpr Double)
  parse_literal = do
    t ← peek
    elim (t.type) [
      | number_int ↦ (do
        _ ← skip
        elim (parse_int64 t.value) [
          | some v ↦ return (int_literal v)
          | none ↦ throw bad_integer t.pos
        ])
      | number_float ↦ (do
        _ ← skip
        elim (parse_double t.value) [
          | some v ↦ return (float_literal v)
          | none ↦ throw bad_float t.pos
        ])
      | string_lit ↦ (do _ ← skip; return (string_literal t.value))
      | _ ↦ throw expected_literal t.pos
    ]

  -- `ParseInsert`
  unfoldable pub parse_insert : Parser (InsertStmt Double)
  parse_insert = do
    _ ← expect kw_insert
    _ ← expect kw_into
    name ← expect ident
    _ ← expect lparen
    first ← expect ident
    others ← while_match comma (do t ← expect ident; return t.value)
    _ ← expect rparen
    _ ← expect kw_values
    _ ← expect lparen
    value ← parse_literal
    values ← while_match comma parse_literal
    _ ← expect rparen
    if length others == length values
        then return (record {
          table_name = name.value;
          columns = first.value ∷ others;
          values = value ∷ values;
        })
        else throw count_mismatch name.pos

  -- `ParseCompare`
  unfoldable pub parse_compare : Parser (CompareExpr Double)
  parse_compare = do
    column ← parse_column_ref
    t ← peek
    elim (compare_op t.type) [
      | some op ↦ (do
        _ ← skip
        value ← parse_literal
        return (record { column = column; op = op; value = value }))
      | none ↦ throw expected_comparison t.pos
    ]

  -- `ParseWhere`
  unfoldable pub parse_where : Parser (List (CompareExpr Double))
  parse_where = do
    first ← parse_compare
    more ← while_match kw_and parse_compare
    return (first ∷ more)
