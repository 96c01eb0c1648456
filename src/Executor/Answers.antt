-- ===== src/Executor/Answers.antt =====
-- The answer to a SELECT by the names of the columns, which says nothing of positions, and the scan of
-- src/executor.c that gives it.
use bptree_sql_engine.Prelude.{
  ℕ, suc, ◌≡◌, refl, sym, ap, ◌∙◌, Bool, true, false, Option, none, some, List, [], ◌∷◌, ◌++◌,
  append_assoc, if◌then◌else◌, Bytes, length, length-append, get_elem?, All, ok, Bool-cases, inl,
  inr, arith,
}
use bptree_sql_engine.Storage.Row.{Row}
use bptree_sql_engine.Storage.File.{Disk, bytes_eq}
use bptree_sql_engine.Storage.Table.{data_path}
use bptree_sql_engine.Storage.TableLaws.{IsRow, write_rows}
use bptree_sql_engine.Schema.Load.{TableSchema, next_index, schema_find_column_index}
use bptree_sql_engine.Runtime.Context.{TableRuntime}
use bptree_sql_engine.Sql.Ast.{WhereClause, SelectStatement}
use bptree_sql_engine.Executor.Select.{
  initialize_query_result_columns, value_equals, value_or, value_at, row_matches_where_clause,
  project_all, project_columns, project_single_row, where_index_of, execute_select_with_full_scan,
}
use bptree_sql_engine.Executor.Indexed.{select_rows, full_scan-select_rows}

-- The value of a row under a name.
abbrev pub value_under : List Bytes → Row → Bytes → Option Bytes
value_under [] row name = none
value_under (column ∷ columns) [] name = none
value_under (column ∷ columns) (value ∷ row) name =
    if bytes_eq column name then some value else value_under columns row name

-- The value under the name of the condition is the text of the condition.
abbrev pub is_text : Bytes → Option Bytes → Bool
is_text text none = false
is_text text (some value) = bytes_eq value text

abbrev pub satisfies : List Bytes → Option WhereClause → Row → Bool
satisfies columns none row = true
satisfies columns (some clause) row =
    is_text clause.value.text (value_under columns row clause.column_name)

abbrev pub text_of : Option Bytes → Bytes
text_of none = []
text_of (some value) = value

-- The values under the names, in the order of the names.
abbrev pub values_under : List Bytes → Row → List Bytes → Row
values_under columns row [] = []
values_under columns row (name ∷ names) =
    text_of (value_under columns row name) ∷ values_under columns row names

-- The rows that satisfy the condition, in their order: whole for `*`, and otherwise the values under
-- the names of the statement.
abbrev pub answer : List Bytes → SelectStatement → List Row → List Row
answer columns stmt [] = []
answer columns stmt (row ∷ rows) =
    if satisfies columns stmt.where_clause row
    then (if stmt.select_all then row else values_under columns row stmt.columns)
      ∷ answer columns stmt rows
    else answer columns stmt rows

value_at-next :
    (value : Bytes) (row : Row) (o : Option ℕ)
    → value_at (value ∷ row) (next_index o) ≡ value_at row o
value_at-next value row none = refl
value_at-next value row (some i) = refl

value_at-nothing : (o : Option ℕ) → value_at [] o ≡ none
value_at-nothing none = refl
value_at-nothing (some i) = refl

value_at-value_under :
    (columns : List Bytes) (row : Row) (name : Bytes)
    → value_at row (schema_find_column_index columns name) ≡ value_under columns row name
unfolding schema_find_column_index
value_at-value_under [] row name = refl
value_at-value_under (column ∷ columns) [] name = value_at-nothing _
value_at-value_under (column ∷ columns) (value ∷ row) name =
    elim (Bool-cases (bytes_eq column name)) [
      | inl e ↦ rw e refl
      | inr e ↦ rw e (
          value_at-next value row (schema_find_column_index columns name)
          ∙ value_at-value_under columns row name)
    ]

value_or-text_of : (o : Option Bytes) → value_or [] o ≡ text_of o
value_or-text_of none = refl
value_or-text_of (some value) = refl

project_columns-values_under :
    (schema : TableSchema) (names : List Bytes) (row : Row)
    → project_columns schema names row ≡ values_under schema.columns row names
project_columns-values_under schema [] row = refl
project_columns-values_under schema (name ∷ names) row =
    let here =
      ap (value_or []) (value_at-value_under schema.columns row name)
      ∙ value_or-text_of (value_under schema.columns row name) in
    cc (here, project_columns-values_under schema names row)

get_elem?-behind :
    (front : Row) (value : Bytes) (row : Row)
    → get_elem? (front ++ value ∷ row) (length front) ≡ some value
get_elem?-behind [] value row = refl
get_elem?-behind (first ∷ front) value row = get_elem?-behind front value row

-- The values from a position on, behind the `front` that stands there already.
project_all-behind :
    (columns : List Bytes) (front row : Row)
    → length row ≡ length columns
    → project_all (length front) columns (front ++ row) ≡ row
project_all-behind [] front [] l = refl
project_all-behind [] front (value ∷ row) l = absurd cc
project_all-behind (column ∷ columns) front [] l = absurd cc
project_all-behind (column ∷ columns) front (value ∷ row) l =
    let here : value_or [] (get_elem? (front ++ value ∷ row) (length front)) ≡ value =
      ap (value_or []) (get_elem?-behind front value row) in
    let longer : length (front ++ value ∷ []) ≡ suc (length front) =
      omega (arith, length-append front (value ∷ [])) in
    let later : project_all (suc (length front)) columns (front ++ value ∷ row) ≡ row =
      ap (λ k. project_all k columns (front ++ value ∷ row)) (sym longer)
      ∙ ap (project_all (length (front ++ value ∷ [])) columns)
          (sym (append_assoc front (value ∷ []) row))
      ∙ project_all-behind columns (front ++ value ∷ []) row (omega (arith, l)) in
    cc (here, later)

projected-values :
    (schema : TableSchema) (stmt : SelectStatement) (row : Row)
    → length row ≡ length schema.columns
    → project_single_row schema stmt row
      ≡ (if stmt.select_all then row else values_under schema.columns row stmt.columns)
unfolding project_single_row
projected-values schema stmt row l = elim (Bool-cases stmt.select_all) [
  | inl e ↦ rw e (project_all-behind schema.columns [] row l)
  | inr e ↦ rw e (project_columns-values_under schema stmt.columns row)
]

matches-satisfies :
    (schema : TableSchema) (stmt : SelectStatement) (o : Option WhereClause) (row : Row)
    → stmt.where_clause ≡ o
    → row_matches_where_clause stmt (where_index_of schema o) row ≡ satisfies schema.columns o row
unfolding row_matches_where_clause
matches-satisfies schema stmt none row e = rw e refl
matches-satisfies schema stmt (some clause) row e = rw e (
    ap (λ o. value_equals o clause.value.text)
      (value_at-value_under schema.columns row clause.column_name)
    ∙ equals (value_under schema.columns row clause.column_name))
  where
    equals : (o : Option Bytes) → value_equals o clause.value.text ≡ is_text clause.value.text o
    equals none = refl
    equals (some value) = refl

select_rows-answer :
    (schema : TableSchema) (stmt : SelectStatement) (rows : List Row)
    → All (IsRow (length schema.columns)) rows
    → select_rows schema stmt (where_index_of schema stmt.where_clause) rows
      ≡ answer schema.columns stmt rows
select_rows-answer schema stmt [] h = refl
select_rows-answer schema stmt (row ∷ rows) (h, hs) =
    let test = matches-satisfies schema stmt stmt.where_clause row refl in
    let cells = projected-values schema stmt row h.columns in
    let later = select_rows-answer schema stmt rows hs in
    elim (Bool-cases (satisfies schema.columns stmt.where_clause row)) [
      | inl e ↦ rw (test, e, cells, later) refl
      | inr e ↦ rw (test, e, later) refl
    ]

-- A full scan of a file of rows, each with a value for each column and a last value that does not end
-- in `\r`, answers a SELECT: it gives the rows whose value under the name of the condition is the text
-- of the condition, or all where there is no condition, in their order; whole for `*`, and otherwise
-- the values under the names of the statement, with an empty one under a name that is no column.
pub full_scan-answer :
    (disk : Disk) (db_dir : Bytes) (table : TableRuntime) (stmt : SelectStatement) (rows : List Row)
    → disk.refused (data_path db_dir table.table_name) ≡ false
    → disk.file (data_path db_dir table.table_name) ≡ some (write_rows rows)
    → All (IsRow (length table.schema.columns)) rows
    → execute_select_with_full_scan disk db_dir table stmt
      ≡ ok (
        record {
          columns = if stmt.select_all then table.schema.columns else stmt.columns;
          rows = answer table.schema.columns stmt rows;
        },
        false,
      )
unfolding initialize_query_result_columns
full_scan-answer disk db_dir table stmt rows e f h =
    full_scan-select_rows disk db_dir table stmt rows e f h
    ∙ ap
        (λ (l : List Row). ok (
          record {
            columns = if stmt.select_all then table.schema.columns else stmt.columns;
            rows = l;
          },
          false,
        ))
        (select_rows-answer table.schema stmt rows h)
