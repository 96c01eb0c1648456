-- ===== src/Executor/Select.antt =====
-- The two ways in which src/executor.c answers a SELECT: through the id index, and by a full scan.
use bptree_sql_engine.Prelude.{
  ℕ, Bool, true, false, Option, none, some, List, [], ◌∷◌, ◌++◌, if◌then◌else◌, Bytes, length,
  get_elem?, Result, ok, err, ◌>>◌,
}
use bptree_sql_engine.Storage.Row.{Row}
use bptree_sql_engine.Storage.File.{Disk, bytes_eq}
use bptree_sql_engine.Storage.Table.{
  StorageError, Signal, continue, scan_table_rows_with_offsets, read_row_at_offset,
}
use bptree_sql_engine.Bptree.Search.{bptree_search}
use bptree_sql_engine.Schema.Load.{TableSchema, schema_find_column_index}
use bptree_sql_engine.Runtime.Id.{parse_canonical_positive_uint64}
use bptree_sql_engine.Runtime.Context.{TableRuntime, id_name}
use bptree_sql_engine.Sql.Ast.{LiteralValue, WhereClause, SelectStatement}
use bptree_sql_engine.Executor.Insert.{ExecError, unknown_column, empty_columns, storage_failed}

abbrev pub check_known : TableSchema → List Bytes → Result ExecError (Unit {0})
check_known schema [] = ok tt
check_known schema (column ∷ columns) = elim (schema_find_column_index schema.columns column) [
  | none ↦ err (unknown_column column)
  | some i ↦ check_known schema columns
]

abbrev pub where_columns : Option WhereClause → List Bytes
where_columns none = []
where_columns (some clause) = clause.column_name ∷ []

abbrev pub check_selected : TableSchema → List Bytes → Result ExecError (Unit {0})
check_selected schema [] = err empty_columns
check_selected schema (column ∷ columns) = check_known schema (column ∷ columns)

unfoldable pub validate_select_columns : TableSchema → SelectStatement → Result ExecError (Unit {0})
validate_select_columns schema stmt =
    (if stmt.select_all then ok tt else check_selected schema stmt.columns)
    >> check_known schema (where_columns stmt.where_clause)

unfoldable pub initialize_query_result_columns : TableSchema → SelectStatement → List Bytes
initialize_query_result_columns schema stmt =
    if stmt.select_all then schema.columns else stmt.columns

-- `row->values[i]`, or a default where the row has no such value
abbrev pub value_or : Bytes → Option Bytes → Bytes
value_or default none = default
value_or default (some value) = value

abbrev pub value_equals : Option Bytes → Bytes → Bool
value_equals none text = false
value_equals (some value) text = bytes_eq value text

abbrev pub value_at : Row → Option ℕ → Option Bytes
value_at row none = none
value_at row (some i) = get_elem? row i

-- `none` for `where_index` is -1.
unfoldable pub row_matches_where_clause : SelectStatement → Option ℕ → Row → Bool
row_matches_where_clause stmt where_index row = elim stmt.where_clause [
  | none ↦ true
  | some clause ↦ value_equals (value_at row where_index) clause.value.text
]

-- The values at the positions of the schema's columns, from `i` on.
abbrev pub project_all : ℕ → List Bytes → Row → Row
project_all i [] row = []
project_all i (column ∷ columns) row =
    value_or [] (get_elem? row i) ∷ project_all (ℕ.suc i) columns row

abbrev pub project_columns : TableSchema → List Bytes → Row → Row
project_columns schema [] row = []
project_columns schema (column ∷ columns) row =
    value_or [] (value_at row (schema_find_column_index schema.columns column))
    ∷ project_columns schema columns row

unfoldable pub project_single_row : TableSchema → SelectStatement → Row → Row
project_single_row schema stmt row =
    if stmt.select_all
    then project_all 0 schema.columns row
    else project_columns schema stmt.columns row

-- The callback of the scan; its state is the rows of the result, which `append_result_row` extends.
unfoldable pub select_full_scan_callback :
    TableSchema → SelectStatement → Option ℕ → Row → ℕ → List Row → Signal (List Row)
select_full_scan_callback schema stmt where_index row row_offset rows = continue (
    if row_matches_where_clause stmt where_index row
    then rows ++ project_single_row schema stmt row ∷ []
    else rows)

pub record QueryResult : Type 0 where
  pub columns : List Bytes
  pub rows : List Row

-- The result with whether the index was used.
abbrev pub Selected : Type 0
Selected = QueryResult × Bool

unfoldable pub try_parse_indexable_id_literal : LiteralValue → Option ℕ
try_parse_indexable_id_literal literal = parse_canonical_positive_uint64 literal.text

abbrev pub indexable_key : Bool → WhereClause → Option ℕ
indexable_key index_ready clause =
    if index_ready
    then if bytes_eq clause.column_name id_name
      then try_parse_indexable_id_literal clause.value
      else none
    else none

-- The column of the ids with the key, where the index can be used.
unfoldable pub can_use_id_index : TableRuntime → SelectStatement → Option (ℕ × ℕ)
can_use_id_index table stmt = elim table.id_column [
  | none ↦ none
  | some id_column ↦ elim stmt.where_clause [
    | none ↦ none
    | some clause ↦ elim (indexable_key table.id_index_ready clause) [
      | none ↦ none
      | some key ↦ some (id_column, key)
    ]
  ]
]

abbrev pub matching_row : TableSchema → SelectStatement → ℕ → Row → List Row
matching_row schema stmt id_column row =
    if row_matches_where_clause stmt (some id_column) row
    then project_single_row schema stmt row ∷ []
    else []

abbrev pub row_result :
    TableSchema → SelectStatement → ℕ → Result StorageError Row → Result ExecError (List Row)
row_result schema stmt id_column (err e) = err (storage_failed e)
row_result schema stmt id_column (ok row) = ok (matching_row schema stmt id_column row)

abbrev pub rows_at :
    Disk → Bytes → TableRuntime → SelectStatement → ℕ → Option ℕ → Result ExecError (List Row)
rows_at disk db_dir table stmt id_column none = ok []
rows_at disk db_dir table stmt id_column (some row_offset) =
    row_result table.schema stmt id_column
      (read_row_at_offset disk db_dir table.table_name row_offset (length table.schema.columns))

abbrev pub selected_with :
    TableRuntime → SelectStatement → Bool → Result ExecError (List Row) → Result ExecError Selected
selected_with table stmt used_index (err e) = err e
selected_with table stmt used_index (ok rows) = ok (
  record { columns = initialize_query_result_columns table.schema stmt; rows = rows },
  used_index,
)

unfoldable pub execute_select_with_id_index :
    Disk → Bytes → TableRuntime → SelectStatement → ℕ → ℕ → Result ExecError Selected
execute_select_with_id_index disk db_dir table stmt id_column id_key =
    selected_with table stmt true
      (rows_at disk db_dir table stmt id_column (bptree_search table.id_index id_key))

abbrev pub where_index_of : TableSchema → Option WhereClause → Option ℕ
where_index_of schema none = none
where_index_of schema (some clause) = schema_find_column_index schema.columns clause.column_name

abbrev pub scanned : Result StorageError (List Row) → Result ExecError (List Row)
scanned (err e) = err (storage_failed e)
scanned (ok rows) = ok rows

unfoldable pub execute_select_with_full_scan :
    Disk → Bytes → TableRuntime → SelectStatement → Result ExecError Selected
execute_select_with_full_scan disk db_dir table stmt = selected_with table stmt false (
    scanned (
      scan_table_rows_with_offsets
        (select_full_scan_callback table.schema stmt
          (where_index_of table.schema stmt.where_clause))
        (length table.schema.columns) disk db_dir table.table_name []))
