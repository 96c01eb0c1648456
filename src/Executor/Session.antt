-- ===== src/Executor/Session.antt =====
-- An INSERT with a generated id, and the SELECT of this id behind it.
use bptree_sql_engine.Prelude.{
  ℕ, ◌≡◌, refl, sym, ap, ◌∙◌, true, false, Option, some, List, [], ◌∷◌, ◌++◌, append_assoc, arith,
  ==-refl, if◌then◌else◌, Bytes, length, Result, ok, ◌>>◌, ◌>>=◌,
}
use bptree_sql_engine.Storage.Row.{Row}
use bptree_sql_engine.Storage.File.{Disk}
use bptree_sql_engine.Storage.FileLaws.{ends_in_cr, last_value}
use bptree_sql_engine.Schema.Load.{TableSchema}
use bptree_sql_engine.Runtime.Id.{parse_canonical_positive_uint64}
use bptree_sql_engine.Runtime.Context.{TableRuntime, id_name}
use bptree_sql_engine.Sql.Ast.{WhereClause, SelectStatement, InsertStatement}
use bptree_sql_engine.Executor.Insert.{ExecError}
use bptree_sql_engine.Executor.Select.{
  Selected, row_matches_where_clause, project_single_row, initialize_query_result_columns,
  validate_select_columns, try_parse_indexable_id_literal, can_use_id_index,
}
use bptree_sql_engine.Executor.Indexed.{IsIndexed, select_rows}
use bptree_sql_engine.Executor.SelectLaws.{id_index-select_rows, select_rows-absent, matches-row}
use bptree_sql_engine.Executor.Execute.{
  ExecResult, result_insert, result_select, generated_row, run_select, insert_into_table,
  select_from_table,
}
use bptree_sql_engine.Executor.InsertLaws.{insert_into_table-IsIndexed, generated_row-HasIdAt}

-- On a table that agrees with its file, the index is used for a condition on the column `id` with a
-- canonical positive number.
pub can_use_index-IsIndexed :
    (disk : Disk) (db_dir : Bytes) (table : TableRuntime) (i key : ℕ) (rows : List Row)
    (stmt : SelectStatement) (clause : WhereClause)
    → IsIndexed table disk db_dir i rows
    → stmt.where_clause ≡ some clause
    → clause.column_name ≡ id_name
    → parse_canonical_positive_uint64 clause.value.text ≡ some key
    → can_use_id_index table stmt ≡ some (i, key)
unfolding can_use_id_index try_parse_indexable_id_literal
can_use_index-IsIndexed disk db_dir table i key rows stmt clause t e f g =
    rw (t.column, can_use_id_index, e, t.ready, f, g) refl

pub select_rows-append :
    (schema : TableSchema) (stmt : SelectStatement) (where_index : Option ℕ) (xs ys : List Row)
    → select_rows schema stmt where_index (xs ++ ys)
      ≡ select_rows schema stmt where_index xs ++ select_rows schema stmt where_index ys
select_rows-append schema stmt where_index [] ys = refl
select_rows-append schema stmt where_index (x ∷ xs) ys =
    let first : List Row =
      if row_matches_where_clause stmt where_index x
      then project_single_row schema stmt x ∷ []
      else [] in
    ap (λ l. first ++ l) (select_rows-append schema stmt where_index xs ys)
    ∙ sym (
        append_assoc first (select_rows schema stmt where_index xs)
          (select_rows schema stmt where_index ys))

-- A SELECT that finds the last row alone.
select-last :
    (disk : Disk) (db_dir : Bytes) (table : TableRuntime) (i key : ℕ) (rows : List Row) (row : Row)
    (stmt : SelectStatement) (clause : WhereClause)
    → IsIndexed table disk db_dir i (rows ++ row ∷ [])
    → stmt.where_clause ≡ some clause
    → clause.column_name ≡ id_name
    → parse_canonical_positive_uint64 clause.value.text ≡ some key
    → validate_select_columns table.schema stmt ≡ ok tt
    → select_rows table.schema stmt (some i) rows ≡ []
    → row_matches_where_clause stmt (some i) row ≡ true
    → select_from_table disk db_dir table stmt
      ≡ ok (
          result_select
            (record {
              columns = initialize_query_result_columns table.schema stmt;
              rows = project_single_row table.schema stmt row ∷ [];
            })
            true)
unfolding select_from_table
select-last disk db_dir table i key rows row stmt clause t e f g valid none_before matches =
    let finish : Result ExecError Selected → Result ExecError ExecResult =
      λ r. r >>= λ selected. ok (result_select selected.0 selected.1) in
    ap (λ v. finish (v >> run_select disk db_dir table stmt (can_use_id_index table stmt))) valid
    ∙ ap (λ c. finish (run_select disk db_dir table stmt c))
        (can_use_index-IsIndexed disk db_dir table i key (rows ++ row ∷ []) stmt clause t e f g)
    ∙ ap finish (id_index-select_rows disk db_dir table i key (rows ++ row ∷ []) stmt clause t e g)
    ∙ ap
        (λ found. ok (
          result_select
            (record { columns = initialize_query_result_columns table.schema stmt; rows = found })
            true))
        (select_rows-append table.schema stmt (some i) rows (row ∷ [])
          ∙ rw (none_before, matches) refl)

-- A row that was inserted with a generated id is what a SELECT of this id finds: in a table that
-- agrees with its file, with a statement for this table that passes the checks of its columns and
-- values, a next id that has not wrapped round to 0, and a last value of the row that is built that
-- does not end in `\r`, the INSERT succeeds, and a SELECT behind it, whose columns are known and whose
-- condition is that `id` is the generated id, answers with this row alone, projected, and by the index.
pub insert-select :
    (disk : Disk) (db_dir : Bytes) (table : TableRuntime) (i : ℕ) (rows : List Row) (row : Row)
    (insertion : InsertStatement) (query : SelectStatement) (clause : WhereClause)
    → IsIndexed table disk db_dir i rows
    → insertion.table_name ≡ table.table_name
    → generated_row table i insertion ≡ ok row
    → ends_in_cr (last_value row) ≡ false
    → query.where_clause ≡ some clause
    → clause.column_name ≡ id_name
    → parse_canonical_positive_uint64 clause.value.text ≡ some table.next_id
    → validate_select_columns table.schema query ≡ ok tt
    → (table' : TableRuntime) × (disk' : Disk) × (insert_into_table table disk db_dir insertion
        ≡ (ok (result_insert (some table.next_id)), table', disk'))
      × (select_from_table disk' db_dir table' query
          ≡ ok (
              result_select
                (record {
                  columns = initialize_query_result_columns table.schema query;
                  rows = project_single_row table.schema query row ∷ [];
                })
                true))
unfolding select_from_table
insert-select disk db_dir table i rows row insertion query clause t name e ends has_clause is_id
      is_key valid =
    let (table', disk', run, schema, t') =
      insert_into_table-IsIndexed disk db_dir table i rows row insertion t name e ends in
    let (at, nonzero, id) = generated_row-HasIdAt disk db_dir table i rows row insertion t e in
    let none_before : select_rows table'.schema query (some i) rows ≡ [] =
      select_rows-absent table'.schema query clause i table.next_id (length table.schema.columns)
        has_clause is_key 0 rows t.ids (t.unused table.next_id nonzero (omega arith)) in
    let matches : row_matches_where_clause query (some i) row ≡ true =
      matches-row table'.schema query clause i table.next_id (length table.schema.columns)
        has_clause is_key row table.next_id id
      ∙ ==-refl table.next_id in
    (
      table',
      disk',
      run,
      select-last disk' db_dir table' i table.next_id rows row query clause t' has_clause is_id
            is_key (ap (λ s. validate_select_columns s query) schema ∙ valid) none_before matches
          ∙ ap
              (λ s. ok (
                result_select
                  (record {
                    columns = initialize_query_result_columns s query;
                    rows = project_single_row s query row ∷ [];
                  })
                  true))
              schema,
    )
