-- ===== src/Sql/Ast.antt =====
-- The statements of include/ast.h.
--
-- An array with its count is a list, and `where_clause.has_condition` is whether the option is there.
use bptree_sql_engine.Prelude.{Bool, Option, List, Bytes}

pub data ValueType : Type 0 where
  value_string value_number : ValueType

pub record LiteralValue : Type 0 where
  pub type : ValueType
  pub text : Bytes

pub record InsertStatement : Type 0 where
  pub table_name : Bytes
  pub columns : List Bytes
  pub values : List LiteralValue

pub record WhereClause : Type 0 where
  pub column_name : Bytes
  pub value : LiteralValue

pub record SelectStatement : Type 0 where
  pub table_name : Bytes
  pub select_all : Bool
  pub columns : List Bytes
  pub where_clause : Option WhereClause

pub data Statement : Type 0 where
  insert_stmt : InsertStatement → Statement
  select_stmt : SelectStatement → Statement
