-- ===== src/Database/State.antt =====
-- A database as the lists of the rows of its tables, what a statement does to it, and what it means
-- that the context and the disk of src/executor.c represent it.
use bptree_sql_engine.Prelude.{
  ℕ, ◌+◌, ◌<◌, ◌≡◌, Bool, true, false, Option, none, some, List, [], ◌∷◌, ◌++◌, if◌then◌else◌,
  Bytes, length, All, Result, ok, err, ◌⊎◌,
}
use bptree_sql_engine.Storage.Row.{Row}
use bptree_sql_engine.Storage.File.{Disk, bytes_eq}
use bptree_sql_engine.Storage.FileLaws.{ends_in_cr}
use bptree_sql_engine.Storage.Table.{cannot_open, data_path}
use bptree_sql_engine.Storage.TableLaws.{IsRow, write_rows, content_of}
use bptree_sql_engine.Storage.ScanLaws.{run_rows}
use bptree_sql_engine.Schema.Load.{
  TableSchema, SchemaError, load_table_schema, schema_find_column_index,
}
use bptree_sql_engine.Runtime.Id.{uint64_max, parse_canonical_positive_uint64}
use bptree_sql_engine.Runtime.Index.{
  IndexError, stored_id, build_id_index_callback, initial_state, built_index,
}
use bptree_sql_engine.Runtime.NextId.{HasStored, Follows}
use bptree_sql_engine.Runtime.Context.{
  TableRuntime, schema_error, storage_error, index_error, find_table, id_name,
}
use bptree_sql_engine.Sql.Ast.{
  InsertStatement, WhereClause, SelectStatement, Statement, insert_stmt, select_stmt,
}
use bptree_sql_engine.Executor.Insert.{
  ExecError, table_error, id_overflow, build_insert_row_existing_behavior,
  validate_insert_columns_for_auto_id, build_insert_row_with_generated_id,
}
use bptree_sql_engine.Executor.Select.{
  validate_select_columns, initialize_query_result_columns, where_index_of,
}
use bptree_sql_engine.Executor.Indexed.{IsIndexed, select_rows}
use bptree_sql_engine.Executor.Execute.{ExecResult, result_insert, result_select, State}

-- The rows of the tables by their names.
abbrev pub Database : Type 0
Database = Bytes → List Row

-- The schemas by the tables' names.
abbrev pub Catalog : Type 0
Catalog = Bytes → Result SchemaError TableSchema

abbrev pub append_to : Database → Bytes → Row → Database
append_to db name row other = if bytes_eq other name then db other ++ row ∷ [] else db other

-- Every id that is stored in column `i` is less than `id`.
abbrev pub AllBelow : ℕ → ℕ → List Row → Type 0
AllBelow i id = All (λ row. (k : ℕ) → stored_id i row ≡ some k → k < id)

-- The id that is generated next: 1 in a table without rows, and otherwise one more than the greatest
-- id.
abbrev pub IsNextId : ℕ → ℕ → List Row → Type 0
IsNextId i id rows =
    AllBelow i id rows
    × (((rows ≡ []) × (id ≡ 1)) ⊎ ((last : ℕ) × HasStored i last rows × (id ≡ last + 1)))

-- What stands in the way of a table with these rows: an id that is not canonical, an id that stands
-- twice, or the greatest id.
abbrev pub CannotIndex : TableSchema → ℕ → List Row → IndexError → Type 0
CannotIndex schema i rows e =
    built_index (run_rows (build_id_index_callback i) (length schema.columns) 0 rows initial_state)
    ≡ err e

abbrev pub is_canonical : Option ℕ → Bool
is_canonical none = false
is_canonical (some key) = true

abbrev pub asks_for_id : Option WhereClause → Bool
asks_for_id none = false
asks_for_id (some clause) =
    if bytes_eq clause.column_name id_name
    then is_canonical (parse_canonical_positive_uint64 clause.value.text)
    else false

-- Whether the index answers: the table has the column `id`, and the condition is that it is a
-- canonical positive number.
abbrev pub by_index : TableSchema → SelectStatement → Bool
by_index schema stmt = elim (schema_find_column_index schema.columns id_name) [
  | none ↦ false
  | some i ↦ asks_for_id stmt.where_clause
]

abbrev pub table_of : Statement → Bytes
table_of (insert_stmt stmt) = stmt.table_name
table_of (select_stmt stmt) = stmt.table_name

-- What a statement may do to a database: every result with what it needs, and the rows behind it.
-- `locked` are the tables whose file cannot be opened.
pub data Step (catalog : Catalog) (locked : Bytes → Bool) (db : Database)
    : Statement → Result ExecError ExecResult → Database → Type 0 where
  selected :
      (stmt : SelectStatement) (schema : TableSchema)
      → catalog stmt.table_name ≡ ok schema
      → validate_select_columns schema stmt ≡ ok tt
      → Step catalog locked db
          (select_stmt stmt)
          (ok (
            result_select
              (record {
                columns = initialize_query_result_columns schema stmt;
                rows =
                    select_rows schema stmt
                      (where_index_of schema stmt.where_clause)
                      (db stmt.table_name);
              })
              (by_index schema stmt)))
          db
  selection_refused :
      (stmt : SelectStatement) (schema : TableSchema) (e : ExecError)
      → catalog stmt.table_name ≡ ok schema
      → validate_select_columns schema stmt ≡ err e
      → Step catalog locked db (select_stmt stmt) (err e) db
  inserted :
      (stmt : InsertStatement) (schema : TableSchema) (row : Row)
      → catalog stmt.table_name ≡ ok schema
      → schema_find_column_index schema.columns id_name ≡ none
      → build_insert_row_existing_behavior schema stmt ≡ ok row
      → Step catalog locked db
          (insert_stmt stmt)
          (ok (result_insert none))
          (append_to db stmt.table_name row)
  row_refused :
      (stmt : InsertStatement) (schema : TableSchema) (e : ExecError)
      → catalog stmt.table_name ≡ ok schema
      → schema_find_column_index schema.columns id_name ≡ none
      → build_insert_row_existing_behavior schema stmt ≡ err e
      → Step catalog locked db (insert_stmt stmt) (err e) db
  inserted_id :
      (stmt : InsertStatement) (schema : TableSchema) (i id : ℕ) (row : Row)
      → catalog stmt.table_name ≡ ok schema
      → schema_find_column_index schema.columns id_name ≡ some i
      → validate_insert_columns_for_auto_id schema i stmt ≡ ok tt
      → build_insert_row_with_generated_id schema i stmt id ≡ ok row
      → stored_id i row ≡ some id
      → IsNextId i id (db stmt.table_name)
      → Step catalog locked db
          (insert_stmt stmt)
          (ok (result_insert (some id)))
          (append_to db stmt.table_name row)
  columns_refused :
      (stmt : InsertStatement) (schema : TableSchema) (i : ℕ) (e : ExecError)
      → catalog stmt.table_name ≡ ok schema
      → schema_find_column_index schema.columns id_name ≡ some i
      → validate_insert_columns_for_auto_id schema i stmt ≡ err e
      → Step catalog locked db (insert_stmt stmt) (err e) db
  ids_used_up :
      (stmt : InsertStatement) (schema : TableSchema) (i : ℕ)
      → catalog stmt.table_name ≡ ok schema
      → schema_find_column_index schema.columns id_name ≡ some i
      → validate_insert_columns_for_auto_id schema i stmt ≡ ok tt
      → HasStored i uint64_max (db stmt.table_name)
      → Step catalog locked db (insert_stmt stmt) (err id_overflow) db
  no_schema :
      (stmt : Statement) (e : SchemaError)
      → catalog (table_of stmt) ≡ err e
      → Step catalog locked db stmt (err (table_error (schema_error e))) db
  no_file :
      (stmt : Statement) (schema : TableSchema)
      → catalog (table_of stmt) ≡ ok schema
      → locked (table_of stmt) ≡ true
      → Step catalog locked db stmt (err (table_error (storage_error cannot_open))) db
  no_index :
      (stmt : Statement) (schema : TableSchema) (i : ℕ) (e : IndexError)
      → catalog (table_of stmt) ≡ ok schema
      → schema_find_column_index schema.columns id_name ≡ some i
      → CannotIndex schema i (db (table_of stmt)) e
      → Step catalog locked db stmt (err (table_error (index_error e))) db

-- The file of a table holds `rows`; a missing file holds none.
pub record Holds (disk : Disk) (db_dir name : Bytes) (schema : TableSchema) (rows : List Row)
    : Type 0 where
  pub content : content_of disk db_dir name ≡ write_rows rows
  pub shapes : All (IsRow (length schema.columns)) rows

-- A table in memory agrees with its file, which holds `rows`.
pub record Agrees (disk : Disk) (db_dir : Bytes) (rows : List Row) (table : TableRuntime)
    : Type 0 where
  pub loaded : load_table_schema disk db_dir table.table_name ≡ ok table.schema
  pub id_column : table.id_column ≡ schema_find_column_index table.schema.columns id_name
  pub readable : disk.refused (data_path db_dir table.table_name) ≡ false
  pub content : disk.file (data_path db_dir table.table_name) ≡ some (write_rows rows)
  pub shapes : All (IsRow (length table.schema.columns)) rows
  pub indexed : (i : ℕ) → table.id_column ≡ some i → IsIndexed table disk db_dir i rows
  pub follows : (i : ℕ) → table.id_column ≡ some i → Follows i table.next_id rows

-- No two tables have the same name.
abbrev pub DistinctNames : List TableRuntime → Type 0
DistinctNames [] = Unit
DistinctNames (table ∷ tables) = (find_table tables table.table_name ≡ none) × DistinctNames tables

abbrev pub AllAgree : Disk → Bytes → Database → List TableRuntime → Type 0
AllAgree disk db_dir db = All (λ table. Agrees disk db_dir (db table.table_name) table)

-- The context and the disk represent a database.
pub record Represents (catalog : Catalog) (locked : Bytes → Bool) (db : Database) (state : State)
    : Type 0 where
  pub schemas : (name : Bytes) → load_table_schema state.1 state.0.db_dir name ≡ catalog name
  pub locks : (name : Bytes) → state.1.refused (data_path state.0.db_dir name) ≡ locked name
  pub contents :
      (name : Bytes) (schema : TableSchema)
      → catalog name ≡ ok schema
      → Holds state.1 state.0.db_dir name schema (db name)
  pub tables : AllAgree state.1 state.0.db_dir db state.0.tables
  pub distinct : DistinctNames state.0.tables

-- No value ends in `\r`: the storage drops it from the last value of a row.
abbrev pub KeepsValues : Statement → Type 0
KeepsValues (insert_stmt stmt) = All (λ value. ends_in_cr value.text ≡ false) stmt.values
KeepsValues (select_stmt stmt) = Unit
