-- ===== src/Sql/Syntax.antt =====
-- The statements of src/coordinator/parser.h, and the columns of catalog.h that they name.
use trans_db.Prelude.{ℕ, Bool, Option, List}
use trans_db.Bytes.{Bytes}

-- `ColumnType`
pub data ColumnType : Type 0 where
  int bigint float varchar : ColumnType

pub record ColumnDef : Type 0 where
  pub name : Bytes
  pub type : ColumnType

-- `CompareOp`
pub data CompareOp : Type 0 where
  eq ne lt le gt ge : CompareOp

-- `ArithOp`
pub data ArithOp : Type 0 where
  add sub : ArithOp

-- `SelectStmt::Aggregate::Func`
pub data Func : Type 0 where
  count sum min max : Func

-- `Double` stands for C++'s `double`.
module _ (Double : Type 0) where
  pub data LiteralExpr : Type 0 where
    int_literal : ℕ → LiteralExpr
    float_literal : Double → LiteralExpr
    string_literal : Bytes → LiteralExpr

  pub record CompareExpr : Type 0 where
    pub column : Bytes
    pub op : CompareOp
    pub value : LiteralExpr

  pub record ArithExpr : Type 0 where
    pub column : Bytes
    pub op : ArithOp
    pub operand : LiteralExpr

  pub record CreateTableStmt : Type 0 where
    pub table_name : Bytes
    pub columns : List ColumnDef
    pub primary_key : Bytes

  pub record InsertStmt : Type 0 where
    pub table_name : Bytes
    pub columns : List Bytes
    pub values : List LiteralExpr

  pub record Aggregate : Type 0 where
    pub func : Func
    pub column : Bytes
    pub star : Bool

  pub record JoinClause : Type 0 where
    pub table_name : Bytes
    pub left_column : Bytes
    pub right_column : Bytes

  -- A field that a flag of the source marks as set is an `Option`.
  pub record SelectStmt : Type 0 where
    pub table_name : Bytes
    pub columns : List Bytes
    pub select_all : Bool
    pub aggregates : List Aggregate
    pub join : Option JoinClause
    pub where_clause : Option (List CompareExpr)
    pub order_by_column : Option Bytes
    pub order_desc : Bool
    pub limit : Option ℕ

  -- Of `arith` and `literal` just one is set.
  pub data Assigned : Type 0 where
    arith_value : ArithExpr → Assigned
    literal_value : LiteralExpr → Assigned

  pub record UpdateStmt : Type 0 where
    pub table_name : Bytes
    pub assignments : List (Bytes × Assigned)
    pub where_clause : List CompareExpr

  pub record DeleteStmt : Type 0 where
    pub table_name : Bytes
    pub where_clause : List CompareExpr

  pub data Statement : Type 0 where
    create_table : CreateTableStmt → Statement
    insert : InsertStmt → Statement
    select : SelectStmt → Statement
    update : UpdateStmt → Statement
    delete : DeleteStmt → Statement
    begin commit rollback : Statement

-- The messages of `ParseError`.
pub data Message : Type 0 where
  lexer_error : Bytes → Message
  empty_statement unexpected_after_statement trailing_input unexpected_token : Message
  expected_column_name expected_column_type primary_key_required count_mismatch : Message
  expected_comparison bad_integer bad_float expected_literal expected_limit : Message
  expected_set_operator expected_statement : Message

pub record ParseError : Type 0 where
  pub message : Message
  pub position : ℕ
