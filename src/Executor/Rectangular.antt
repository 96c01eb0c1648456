-- ===== src/Executor/Rectangular.antt =====
-- The result of a SELECT of src/executor.c has a value for each of its columns in every row.
use bptree_sql_engine.Prelude.{
  if-both, ℕ, zero, suc, ◌+◌, ◌≡◌, refl, ap, subst, Bool, true, false, Option, none, some, List, [],
  ◌∷◌, if◌then◌else◌, Bytes, length, All, All-append, Result, ok, err, ◌>>◌, ◌>>=◌, Option-cases,
  inl, inr,
}
use bptree_sql_engine.Storage.Row.{Row, parse_line_into_row}
use bptree_sql_engine.Storage.File.{Disk, Stream, read_line}
use bptree_sql_engine.Storage.Table.{
  StorageError, Signal, continue, stop, fail, resume, data_path, scan_loop, scan_file,
  scan_table_rows_with_offsets, read_row_at_offset,
}
use bptree_sql_engine.Bptree.Search.{bptree_search}
use bptree_sql_engine.Schema.Load.{TableSchema}
use bptree_sql_engine.Runtime.Context.{TableRuntime}
use bptree_sql_engine.Sql.Ast.{SelectStatement}
use bptree_sql_engine.Executor.Insert.{ExecError}
use bptree_sql_engine.Executor.Select.{
  QueryResult, Selected, initialize_query_result_columns, project_all, project_columns,
  project_single_row, row_matches_where_clause, select_full_scan_callback, validate_select_columns,
  can_use_id_index, row_result, rows_at, selected_with, scanned, where_index_of,
  execute_select_with_id_index, execute_select_with_full_scan,
}
use bptree_sql_engine.Executor.Execute.{ExecResult, result_select, run_select, select_from_table}

module _ {S : Type 0} (P : S → Type 0) where
  abbrev HoldsOf : Result StorageError S → Type 0
  HoldsOf (ok state) = P state
  HoldsOf (err e) = Unit

  abbrev Keeps : Signal S → Type 0
  Keeps (continue state) = P state
  Keeps (stop state) = P state
  Keeps fail = Unit

  resume-HoldsOf :
      (signal : Signal S) (next : S → Result StorageError S)
      → Keeps signal
      → ((state : S) → P state → HoldsOf (next state))
      → HoldsOf (resume signal next)
  resume-HoldsOf (continue state) next h k = k state h
  resume-HoldsOf (stop state) next h k = h
  resume-HoldsOf fail next h k = tt

  module _ (callback : Row → ℕ → S → Signal S) (n : ℕ)
      (keeps : (row : Row) (offset : ℕ) (state : S)
        → P state
        → Keeps (callback row offset state)) where
    -- What every call of the callback keeps, the scan keeps.
    scan_loop-HoldsOf :
        (fuel line_number : ℕ) (stream : Stream) (state : S)
        → P state
        → HoldsOf (scan_loop callback n fuel line_number stream state)
    unfolding scan_loop
    scan_loop-HoldsOf zero line_number stream state h = h
    scan_loop-HoldsOf (suc fuel) line_number stream state h =
        elim (Option-cases (read_line stream)) [
          | inl e ↦ rw (e, scan_loop) h
          | inr ((line, stream'), e) ↦ elim (Option-cases (parse_line_into_row line n)) [
            | inl f ↦ rw (e, scan_loop, f) tt
            | inr (row, f) ↦
                rw (e, scan_loop, f)
                  (resume-HoldsOf (callback row stream.position state) _
                    (keeps row stream.position state h)
                    (λ state' h'. scan_loop-HoldsOf fuel (line_number + 1) stream' state' h'))
          ]
        ]

    scan_file-HoldsOf :
        (o : Option Bytes) (state : S) → P state → HoldsOf (scan_file callback n o state)
    scan_file-HoldsOf none state h = h
    scan_file-HoldsOf (some content) state h = scan_loop-HoldsOf (suc (length content)) 0 _ state h

    scan-HoldsOf :
        (disk : Disk) (db_dir name : Bytes) (state : S)
        → P state
        → HoldsOf (scan_table_rows_with_offsets callback n disk db_dir name state)
    unfolding scan_table_rows_with_offsets
    scan-HoldsOf disk db_dir name state h =
        if-both HoldsOf (disk.refused (data_path db_dir name)) tt
          (scan_file-HoldsOf (disk.file (data_path db_dir name)) state h)

length-project_all :
    (i : ℕ) (columns : List Bytes) (row : Row) → length (project_all i columns row) ≡ length columns
length-project_all i [] row = refl
length-project_all i (column ∷ columns) row = ap suc (length-project_all (suc i) columns row)

length-project_columns :
    (schema : TableSchema) (columns : List Bytes) (row : Row)
    → length (project_columns schema columns row) ≡ length columns
length-project_columns schema [] row = refl
length-project_columns schema (column ∷ columns) row =
    ap suc (length-project_columns schema columns row)

module _ (schema : TableSchema) (stmt : SelectStatement) where
  abbrev IsProjected : List Row → Type 0
  IsProjected = All (λ row. length row ≡ length (initialize_query_result_columns schema stmt))

  length-project_single_row :
      (row : Row)
      → length (project_single_row schema stmt row)
        ≡ length (initialize_query_result_columns schema stmt)
  unfolding project_single_row initialize_query_result_columns
  length-project_single_row row =
      elim stmt.select_all
        as (λ b.
          length (
            if b then project_all 0 schema.columns row else project_columns schema stmt.columns row)
          ≡ length (if b then schema.columns else stmt.columns)) [
            | true ↦ length-project_all 0 schema.columns row
            | false ↦ length-project_columns schema stmt.columns row
          ]

  callback-IsProjected :
      (where_index : Option ℕ) (row : Row) (offset : ℕ) (rows : List Row)
      → IsProjected rows
      → Keeps IsProjected (select_full_scan_callback schema stmt where_index row offset rows)
  unfolding select_full_scan_callback
  callback-IsProjected where_index row offset rows h =
      if-both IsProjected (row_matches_where_clause stmt where_index row)
        (All-append _ rows _ h (length-project_single_row row, tt)) h

  abbrev ProjectedResult : Result ExecError (List Row) → Type 0
  ProjectedResult (ok rows) = IsProjected rows
  ProjectedResult (err e) = Unit

  scanned-ProjectedResult :
      (r : Result StorageError (List Row)) → HoldsOf IsProjected r → ProjectedResult (scanned r)
  scanned-ProjectedResult (ok rows) h = h
  scanned-ProjectedResult (err e) h = tt

  row_result-ProjectedResult :
      (i : ℕ) (r : Result StorageError Row) → ProjectedResult (row_result schema stmt i r)
  row_result-ProjectedResult i (err e) = tt
  row_result-ProjectedResult i (ok row) =
      if-both IsProjected (row_matches_where_clause stmt (some i) row)
        (length-project_single_row row, tt) tt

-- A table of values: one for each column in every row.
abbrev pub IsRectangular : QueryResult → Type 0
IsRectangular result = All (λ row. length row ≡ length result.columns) result.rows

abbrev RectangularResult : Result ExecError ExecResult → Type 0
RectangularResult (ok (result_select result used_index)) = IsRectangular result
RectangularResult result = Unit

abbrev finished : Result ExecError Selected → Result ExecError ExecResult
finished r = r >>= λ selected. ok (result_select selected.0 selected.1)

selected-Rectangular :
    (table : TableRuntime) (stmt : SelectStatement) (used : Bool) (r : Result ExecError (List Row))
    → ProjectedResult table.schema stmt r
    → RectangularResult (finished (selected_with table stmt used r))
selected-Rectangular table stmt used (err e) h = tt
selected-Rectangular table stmt used (ok rows) h = h

rows_at-ProjectedResult :
    (disk : Disk) (db_dir : Bytes) (table : TableRuntime) (stmt : SelectStatement) (i : ℕ)
    (o : Option ℕ)
    → ProjectedResult table.schema stmt (rows_at disk db_dir table stmt i o)
rows_at-ProjectedResult disk db_dir table stmt i none = tt
rows_at-ProjectedResult disk db_dir table stmt i (some offset) =
    row_result-ProjectedResult table.schema stmt i
      (read_row_at_offset disk db_dir table.table_name offset (length table.schema.columns))

run_select-Rectangular :
    (disk : Disk) (db_dir : Bytes) (table : TableRuntime) (stmt : SelectStatement)
    (choice : Option (ℕ × ℕ))
    → RectangularResult (finished (run_select disk db_dir table stmt choice))
unfolding execute_select_with_id_index execute_select_with_full_scan
run_select-Rectangular disk db_dir table stmt none = selected-Rectangular table stmt false _ (
    scanned-ProjectedResult table.schema stmt _ (
      scan-HoldsOf (IsProjected table.schema stmt) _ (length table.schema.columns)
        (callback-IsProjected table.schema stmt (where_index_of table.schema stmt.where_clause))
        disk db_dir table.table_name [] tt))
run_select-Rectangular disk db_dir table stmt (some (i, key)) =
    selected-Rectangular table stmt true _
      (rows_at-ProjectedResult disk db_dir table stmt i (bptree_search table.id_index key))

select-RectangularResult :
    (disk : Disk) (db_dir : Bytes) (table : TableRuntime) (stmt : SelectStatement)
    → RectangularResult (select_from_table disk db_dir table stmt)
unfolding select_from_table
select-RectangularResult disk db_dir table stmt =
    elim (validate_select_columns table.schema stmt)
      as (λ v.
        RectangularResult
          (finished (v >> run_select disk db_dir table stmt (can_use_id_index table stmt)))) [
            | err e ↦ tt
            | ok u ↦ run_select-Rectangular disk db_dir table stmt (can_use_id_index table stmt)
          ]

-- Whatever the file of a table holds, a SELECT that succeeds has a value for each of its columns in
-- every row, by the index and by a scan.
pub select_from_table-IsRectangular :
    (disk : Disk) (db_dir : Bytes) (table : TableRuntime) (stmt : SelectStatement)
    (result : QueryResult) (used_index : Bool)
    → select_from_table disk db_dir table stmt ≡ ok (result_select result used_index)
    → IsRectangular result
select_from_table-IsRectangular disk db_dir table stmt result used_index e =
    subst RectangularResult e (select-RectangularResult disk db_dir table stmt)
