-- ===== src/Sql/Statement.antt =====
-- The grammar of src/coordinator/parser.cpp: `SELECT`, `UPDATE`, `DELETE`, and `Parse` itself.
use trans_db.Prelude.{ℕ, Bool, true, false, Option, none, some, List, [], ◌∷◌, if◌then◌else◌}
use trans_db.Bytes.{Bytes}
use trans_db.Sql.Token.{
  TokenType, Token, ident, number_int, lparen, rparen, comma, semicolon, star, plus, minus, eq,
  kw_create, kw_insert, kw_select, kw_from, kw_join, kw_inner, kw_on, kw_where, kw_order, kw_by,
  kw_limit, kw_asc, kw_desc, kw_update, kw_set, kw_delete, kw_begin, kw_commit, kw_rollback,
  kw_abort, kw_count, kw_sum, kw_min, kw_max, unknown, ◌=t=◌,
}
use trans_db.Sql.Lexer.{tokenize}
use trans_db.Sql.Syntax.{
  add, sub, Func, count, sum, min, max, Aggregate, JoinClause, SelectStmt, Assigned, arith_value,
  literal_value, UpdateStmt, DeleteStmt, Statement, create_table, insert, select, update, delete,
  begin, commit, rollback, lexer_error, empty_statement, unexpected_after_statement, trailing_input,
  expected_limit, expected_set_operator, expected_statement,
}
use trans_db.Sql.Cursor.{
  Parsed, parsed, failed, Parser, ◌>>=◌, return, peek_token, peek, at_end, advance, skip, throw,
  match, expect, while_match,
}
use trans_db.Sql.Parser.{
  parse_int64, parse_column_ref, parse_create_table, parse_insert, parse_literal, parse_where,
}

unfoldable pub aggregate_func : TokenType → Option Func
aggregate_func kw_count = some count
aggregate_func kw_sum = some sum
aggregate_func kw_min = some min
aggregate_func kw_max = some max
aggregate_func _ = none

-- `if (Match(type)) ...`: the clause, if it is there.
unfoldable pub when_match : {A : Type 0} → TokenType → Parser A → Parser (Option A)
when_match type clause = do
  here ← match type
  if here then (do a ← clause; return (some a)) else return none

module _ (Double : Type 0) (parse_double : Bytes → Option Double) where
  -- What `parse_select_item` adds to the statement.
  pub data SelectItem : Type 0 where
    column_item : Bytes → SelectItem
    aggregate_item : Aggregate Double → SelectItem

  unfoldable pub parse_select_item : Parser SelectItem
  parse_select_item = do
    t ← peek
    elim (aggregate_func t.type) [
      | some func ↦ (do
        _ ← skip
        _ ← expect lparen
        all ← match star
        column ← if all then return [] else parse_column_ref
        _ ← expect rparen
        return (aggregate_item (record { func = func; column = column; star = all })))
      | none ↦ (do column ← parse_column_ref; return (column_item column))
    ]

  unfoldable pub columns_of : List SelectItem → List Bytes
  columns_of [] = []
  columns_of (column_item column ∷ items) = column ∷ columns_of items
  columns_of (aggregate_item a ∷ items) = columns_of items

  unfoldable pub aggregates_of : List SelectItem → List (Aggregate Double)
  aggregates_of [] = []
  aggregates_of (column_item column ∷ items) = aggregates_of items
  aggregates_of (aggregate_item a ∷ items) = a ∷ aggregates_of items

  -- The items; `none` for `*`.
  unfoldable pub parse_select_list : Parser (Option (List SelectItem))
  parse_select_list = do
    all ← match star
    if all then return none else (do
      first ← parse_select_item
      more ← while_match comma parse_select_item
      return (some (first ∷ more)))

  -- What follows `JOIN`.
  unfoldable pub parse_join_clause : Parser (JoinClause Double)
  parse_join_clause = do
    table ← parse_column_ref
    _ ← expect kw_on
    left ← parse_column_ref
    _ ← expect eq
    right ← parse_column_ref
    return (record { table_name = table; left_column = left; right_column = right })

  unfoldable pub parse_join : Parser (Option (JoinClause Double))
  parse_join = do
    inner ← match kw_inner
    if inner
        then (do _ ← expect kw_join; clause ← parse_join_clause; return (some clause))
        else when_match kw_join parse_join_clause

  -- What follows `ORDER`: the column, and whether the order goes down.
  unfoldable pub parse_order : Parser (Bytes × Bool)
  parse_order = do
    _ ← expect kw_by
    column ← parse_column_ref
    down ← match kw_desc
    _ ← if down then return false else match kw_asc
    return (column, down)

  -- What follows `LIMIT`. A number token has no sign, so that it is never below 0.
  unfoldable pub parse_limit : Parser ℕ
  parse_limit = do
    t ← expect number_int
    elim (parse_int64 t.value) [ some v ↦ return v | none ↦ throw expected_limit t.pos ]

  -- `ParseSelect`
  unfoldable pub parse_select : Parser (SelectStmt Double)
  parse_select = do
    _ ← expect kw_select
    items ← parse_select_list
    _ ← expect kw_from
    table ← parse_column_ref
    join ← parse_join
    conditions ← when_match kw_where (parse_where Double parse_double)
    order ← when_match kw_order parse_order
    limit ← when_match kw_limit parse_limit
    return (record {
      table_name = table;
      columns = elim items [ none ↦ [] | some l ↦ columns_of l ];
      select_all = elim items [ none ↦ true | some l ↦ false ];
      aggregates = elim items [ none ↦ [] | some l ↦ aggregates_of l ];
      join = join;
      where_clause = conditions;
      order_by_column = elim order [ none ↦ none | some (column, down) ↦ some column ];
      order_desc = elim order [ none ↦ false | some (column, down) ↦ down ];
      limit = limit;
    })

  -- The value of an assignment of `ParseUpdate`.
  unfoldable pub parse_assigned : Parser (Assigned Double)
  parse_assigned = do
    first ← peek
    if first.type =t= ident
        then (do
          _ ← skip
          op ← peek
          if op.type =t= plus
              then (do
                _ ← skip
                operand ← parse_literal Double parse_double
                return (arith_value (record { column = first.value; op = add; operand = operand })))
              else if op.type =t= minus
              then (do
                _ ← skip
                operand ← parse_literal Double parse_double
                return (arith_value (record { column = first.value; op = sub; operand = operand })))
              else throw expected_set_operator op.pos)
        else (do value ← parse_literal Double parse_double; return (literal_value value))

  unfoldable pub parse_assignment : Parser (Bytes × Assigned Double)
  parse_assignment = do
    column ← expect ident
    _ ← expect eq
    value ← parse_assigned
    return (column.value, value)

  -- `ParseUpdate`
  unfoldable pub parse_update : Parser (UpdateStmt Double)
  parse_update = do
    _ ← expect kw_update
    table ← expect ident
    _ ← expect kw_set
    first ← parse_assignment
    more ← while_match comma parse_assignment
    _ ← expect kw_where
    conditions ← parse_where Double parse_double
    return
        (record { table_name = table.value; assignments = first ∷ more; where_clause = conditions })

  -- `ParseDelete`
  unfoldable pub parse_delete : Parser (DeleteStmt Double)
  parse_delete = do
    _ ← expect kw_delete
    _ ← expect kw_from
    table ← expect ident
    _ ← expect kw_where
    conditions ← parse_where Double parse_double
    return (record { table_name = table.value; where_clause = conditions })

  unfoldable pub as_statement :
      {A : Type 0} → (A → Statement Double) → Parser A → Parser (Statement Double)
  as_statement f p = do a ← p; return (f a)

  -- `ParseStatement`
  unfoldable pub parse_statement : Parser (Statement Double)
  parse_statement = do
    t ← peek
    elim (t.type) [
      | kw_create ↦ as_statement create_table (parse_create_table Double parse_double)
      | kw_insert ↦ as_statement insert (parse_insert Double parse_double)
      | kw_select ↦ as_statement select parse_select
      | kw_update ↦ as_statement update parse_update
      | kw_delete ↦ as_statement delete parse_delete
      | kw_begin ↦ as_statement (λ u. begin) skip
      | kw_commit ↦ as_statement (λ u. commit) skip
      | kw_rollback ↦ as_statement (λ u. rollback) skip
      | kw_abort ↦ as_statement (λ u. rollback) skip
      | _ ↦ throw expected_statement t.pos
    ]

  -- What `Parse` does once a statement has been read: a semicolon may follow, and then the end.
  unfoldable pub parse_end : Parser Unit
  parse_end = do
    _ ← λ ts.
        if at_end ts
        then parsed tt ts
        else if (peek_token ts).type =t= semicolon
        then parsed tt (advance ts)
        else failed
            (record { message = unexpected_after_statement; position = (peek_token ts).pos })
    λ ts.
        if at_end ts
        then parsed tt ts
        else failed (record { message = trailing_input; position = (peek_token ts).pos })

  -- The first token that the tokenizer could not read.
  unfoldable pub find_unknown : List Token → Option Token
  find_unknown [] = none
  find_unknown (t ∷ ts) =
      let later = find_unknown ts in if t.type =t= unknown then some t else later

  -- `Parse`
  unfoldable pub parse : Bytes → Parsed (Statement Double)
  parse sql =
      let tokens = tokenize sql in
      elim (find_unknown tokens) [
        | some t ↦ failed (record { message = lexer_error t.value; position = t.pos })
        | none ↦
            if at_end tokens
            then failed (record { message = empty_statement; position = 0 })
            else ((do statement ← parse_statement; _ ← parse_end; return statement) tokens)
      ]
