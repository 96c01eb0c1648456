-- ===== src/Executor/Execute.antt =====
-- `execute_insert`, `execute_select` and `execute_statement` of src/executor.c.
--
-- The state is the context and the disk. A function that fails may have changed both before.
use bptree_sql_engine.Prelude.{
  ℕ, ◌+◌, ◌%◌, ◌^◌, Bool, true, Option, none, some, ◌==◌, Bytes, get_elem?, set, Result, ok, err,
  ◌>>=◌, ◌>>◌, guard, not,
}
use bptree_sql_engine.Storage.Row.{Row}
use bptree_sql_engine.Storage.File.{Disk}
use bptree_sql_engine.Storage.Table.{
  StorageError, append_row_to_table, append_row_to_table_with_offset,
}
use bptree_sql_engine.Bptree.Node.{Tree}
use bptree_sql_engine.Bptree.Insert.{TreeError, bptree_insert}
use bptree_sql_engine.Runtime.Context.{
  TableRuntime, ExecutionContext, RuntimeError, get_or_load_table_runtime,
}
use bptree_sql_engine.Sql.Ast.{
  InsertStatement, SelectStatement, Statement, insert_stmt, select_stmt,
}
use bptree_sql_engine.Executor.Insert.{
  ExecError, table_error, storage_failed, index_failed, id_overflow, lost_table,
  build_insert_row_existing_behavior, validate_insert_columns_for_auto_id,
  build_insert_row_with_generated_id,
}
use bptree_sql_engine.Executor.Select.{
  QueryResult, Selected, validate_select_columns, can_use_id_index, execute_select_with_id_index,
  execute_select_with_full_scan,
}

-- `ExecResult`: one row was inserted, with the id that was generated for it if there is one; or a
-- result set, whose number of rows is `affected_rows`, with `used_index`.
pub data ExecResult : Type 0 where
  result_insert : Option ℕ → ExecResult
  result_select : QueryResult → Bool → ExecResult

abbrev pub State : Type 0
State = ExecutionContext × Disk

abbrev pub Outcome : Type 0
Outcome = Result ExecError ExecResult × State

-- The row for the next id, once the statement has passed the checks.
abbrev pub generated_row : TableRuntime → ℕ → InsertStatement → Result ExecError Row
generated_row table id_column stmt =
    validate_insert_columns_for_auto_id table.schema id_column stmt
    >> (guard (not (table.next_id == 0)) id_overflow
        >> build_insert_row_with_generated_id table.schema id_column stmt table.next_id)

-- Behind the append: the entry of the index, and the next id, which wraps round. Where the index
-- refuses the entry the row stays in the file.
abbrev pub index_row :
    TableRuntime → Disk → Result TreeError Tree → Result ExecError ExecResult × TableRuntime × Disk
index_row table disk (err e) = (err (index_failed e), table, disk)
index_row table disk (ok tree) = (
  ok (result_insert (some table.next_id)),
  record table { next_id = (table.next_id + 1) % 2 ^ 64; id_index_ready = true; id_index = tree },
  disk,
)

abbrev pub index_appended :
    TableRuntime
    → Disk
    → Result StorageError (Disk × ℕ)
    → Result ExecError ExecResult × TableRuntime × Disk
index_appended table disk (err e) = (err (storage_failed e), table, disk)
index_appended table disk (ok (disk', row_offset)) =
    index_row table disk' (bptree_insert table.id_index table.next_id row_offset)

abbrev pub insert_generated :
    TableRuntime
    → Disk
    → Bytes
    → Bytes
    → Result ExecError Row
    → Result ExecError ExecResult × TableRuntime × Disk
insert_generated table disk db_dir name (err e) = (err e, table, disk)
insert_generated table disk db_dir name (ok row) =
    index_appended table disk (append_row_to_table_with_offset disk db_dir name row)

abbrev pub appended :
    TableRuntime
    → Disk
    → Result StorageError Disk
    → Result ExecError ExecResult × TableRuntime × Disk
appended table disk (err e) = (err (storage_failed e), table, disk)
appended table disk (ok disk') = (ok (result_insert none), table, disk')

abbrev pub insert_plain :
    TableRuntime
    → Disk
    → Bytes
    → Bytes
    → Result ExecError Row
    → Result ExecError ExecResult × TableRuntime × Disk
insert_plain table disk db_dir name (err e) = (err e, table, disk)
insert_plain table disk db_dir name (ok row) =
    appended table disk (append_row_to_table disk db_dir name row)

abbrev pub insert_by_column :
    TableRuntime
    → Disk
    → Bytes
    → InsertStatement
    → Option ℕ
    → Result ExecError ExecResult × TableRuntime × Disk
insert_by_column table disk db_dir stmt (some id_column) =
    insert_generated table disk db_dir stmt.table_name (generated_row table id_column stmt)
insert_by_column table disk db_dir stmt none =
    insert_plain table disk db_dir stmt.table_name
      (build_insert_row_existing_behavior table.schema stmt)

-- The part of `execute_insert` behind the look-up of the table.
unfoldable pub insert_into_table :
    TableRuntime
    → Disk
    → Bytes
    → InsertStatement
    → Result ExecError ExecResult × TableRuntime × Disk
insert_into_table table disk db_dir stmt = insert_by_column table disk db_dir stmt table.id_column

-- The table is changed through the pointer into the context.
abbrev pub stored_back :
    ExecutionContext → ℕ → Result ExecError ExecResult × TableRuntime × Disk → Outcome
stored_back ctx i (result, table, disk) =
    (result, (record ctx { tables = set ctx.tables i table }, disk))

-- A table that was found or loaded is in the context, so `none` does not occur.
abbrev pub insert_at_table :
    ExecutionContext → Disk → InsertStatement → ℕ → Option TableRuntime → Outcome
insert_at_table ctx disk stmt i none = (err lost_table, (ctx, disk))
insert_at_table ctx disk stmt i (some table) =
    stored_back ctx i (insert_into_table table disk ctx.db_dir stmt)

abbrev pub insert_loaded :
    InsertStatement → Result RuntimeError ℕ × ExecutionContext × Disk → Outcome
insert_loaded stmt (err e, ctx, disk) = (err (table_error e), (ctx, disk))
insert_loaded stmt (ok i, ctx, disk) = insert_at_table ctx disk stmt i (get_elem? ctx.tables i)

unfoldable pub execute_insert : InsertStatement → State → Outcome
execute_insert stmt (ctx, disk) =
    insert_loaded stmt (get_or_load_table_runtime ctx disk stmt.table_name)

abbrev pub run_select :
    Disk → Bytes → TableRuntime → SelectStatement → Option (ℕ × ℕ) → Result ExecError Selected
run_select disk db_dir table stmt none = execute_select_with_full_scan disk db_dir table stmt
run_select disk db_dir table stmt (some (id_column, id_key)) =
    execute_select_with_id_index disk db_dir table stmt id_column id_key

-- The part of `execute_select` behind the look-up of the table.
unfoldable pub select_from_table :
    Disk → Bytes → TableRuntime → SelectStatement → Result ExecError ExecResult
select_from_table disk db_dir table stmt =
    (validate_select_columns table.schema stmt
      >> run_select disk db_dir table stmt (can_use_id_index table stmt))
    >>= λ selected. ok (result_select selected.0 selected.1)

abbrev pub select_at_table :
    ExecutionContext → Disk → SelectStatement → Option TableRuntime → Outcome
select_at_table ctx disk stmt none = (err lost_table, (ctx, disk))
select_at_table ctx disk stmt (some table) =
    (select_from_table disk ctx.db_dir table stmt, (ctx, disk))

abbrev pub select_loaded :
    SelectStatement → Result RuntimeError ℕ × ExecutionContext × Disk → Outcome
select_loaded stmt (err e, ctx, disk) = (err (table_error e), (ctx, disk))
select_loaded stmt (ok i, ctx, disk) = select_at_table ctx disk stmt (get_elem? ctx.tables i)

unfoldable pub execute_select : SelectStatement → State → Outcome
execute_select stmt (ctx, disk) =
    select_loaded stmt (get_or_load_table_runtime ctx disk stmt.table_name)

unfoldable pub execute_statement : Statement → State → Outcome
execute_statement (insert_stmt stmt) state = execute_insert stmt state
execute_statement (select_stmt stmt) state = execute_select stmt state
