-- ===== src/Benchmark/Run.antt =====
-- src/benchmark.c.
--
-- The times that it measures are left out of the report. `fopen` for writing is refused where `fopen`
-- for reading is.
use bptree_sql_engine.Prelude.{
  ℕ, zero, suc, ◌+◌, ◌-◌, ◌%◌, Bool, true, false, not, ◌&&◌, ◌||◌, ◌==◌, some, [], ◌∷◌, ◌++◌,
  if◌then◌else◌, Bytes, codes, length, take, Result, ok, err,
}
use bptree_sql_engine.Storage.File.{Disk, write_file}
use bptree_sql_engine.Runtime.Id.{format_uint64}
use bptree_sql_engine.Runtime.Context.{id_name, init_execution_context}
use bptree_sql_engine.Sql.Ast.{
  value_string, value_number, WhereClause, InsertStatement, SelectStatement, insert_stmt,
  select_stmt,
}
use bptree_sql_engine.Executor.Insert.{ExecError}
use bptree_sql_engine.Executor.Execute.{
  ExecResult, result_insert, result_select, State, execute_statement,
}

pub data BenchmarkError : Type 0 where
  directory_error schema_file_error data_file_error invalid_arguments : BenchmarkError
  id_select_error non_id_select_error : BenchmarkError
  statement_error : ExecError → BenchmarkError

pub record BenchmarkReport : Type 0 where
  pub row_count : ℕ
  pub probe_count : ℕ

-- `snprintf` into a buffer of 1024 bytes.
abbrev pub file_path : Bytes → Bytes → Bytes → Bytes
file_path db_dir table_name suffix = take 1023 (db_dir ++ (codes "/" ++ (table_name ++ suffix)))

abbrev pub schema_text : Bytes
schema_text = codes "id\nname\nage\n"

abbrev pub reset_data : Disk → Bytes → Result BenchmarkError (Unit {0}) × Disk
reset_data disk data_path =
    if disk.refused data_path
    then (err data_file_error, disk)
    else (ok tt, write_file disk data_path [])

abbrev pub write_schema : Disk → Bytes → Bytes → Result BenchmarkError (Unit {0}) × Disk
write_schema disk schema_path data_path =
    if disk.refused schema_path
    then (err schema_file_error, disk)
    else reset_data (write_file disk schema_path schema_text) data_path

-- `directory_fails` are the directories that `mkdir` neither makes nor finds.
unfoldable pub ensure_benchmark_schema :
    (Bytes → Bool) → Disk → Bytes → Bytes → Result BenchmarkError (Unit {0}) × Disk
ensure_benchmark_schema directory_fails disk db_dir table_name =
    if directory_fails db_dir
    then (err directory_error, disk)
    else write_schema disk (file_path db_dir table_name (codes ".schema"))
        (file_path db_dir table_name (codes ".data"))

abbrev pub user_name : ℕ → Bytes
user_name k = codes "user_" ++ format_uint64 k

-- The statement of round `i`.
abbrev pub bulk_statement : Bytes → ℕ → InsertStatement
bulk_statement table_name i = record {
  table_name = table_name;
  columns = [];
  values =
      record { type = value_string; text = user_name (i + 1) }
      ∷ record { type = value_string; text = format_uint64 (20 + i % 50) }
      ∷ [];
}

-- What a loop of the benchmark does with the outcome of a statement.
abbrev pub go_on :
    Result ExecError ExecResult × State
    → (ExecResult → State → Result BenchmarkError (Unit {0}) × State)
    → Result BenchmarkError (Unit {0}) × State
go_on (err e, state) next = (err (statement_error e), state)
go_on (ok result, state) next = next result state

-- The loop, with the number of rounds that are left, and `i`.
unfoldable pub benchmark_bulk_insert :
    ℕ → ℕ → Bytes → State → Result BenchmarkError (Unit {0}) × State
benchmark_bulk_insert zero i table_name state = (ok tt, state)
benchmark_bulk_insert (suc left) i table_name state =
    go_on (execute_statement (insert_stmt (bulk_statement table_name i)) state)
      λ result state'. benchmark_bulk_insert left (i + 1) table_name state'

abbrev pub probe : Bytes → WhereClause → SelectStatement
probe table_name clause = record {
  table_name = table_name;
  select_all = true;
  columns = [];
  where_clause = some clause;
}

abbrev pub id_clause : ℕ → WhereClause
id_clause key = record {
  column_name = id_name;
  value = record { type = value_number; text = format_uint64 key };
}

abbrev pub name_clause : ℕ → WhereClause
name_clause key = record {
  column_name = codes "name";
  value = record { type = value_string; text = user_name key };
}

abbrev pub probe_id : ℕ → ℕ → ℕ
probe_id row_count i = row_count - i % row_count

-- `result.used_index` and `result.query_result.row_count` are what is expected.
abbrev pub is_expected : Bool → ExecResult → Bool
is_expected used (result_insert generated_id) = false
is_expected used (result_select result used_index) =
    (if used then used_index else not used_index) && length result.rows == 1

-- The loop of `benchmark_id_selects` and of `benchmark_non_id_selects`: the probes, with whether they
-- have to use the index, and the error where they do not answer as expected.
module _ (clause : ℕ → WhereClause) (used : Bool) (unexpected : BenchmarkError) where
  unfoldable pub select_loop : ℕ → ℕ → Bytes → ℕ → State → Result BenchmarkError (Unit {0}) × State
  select_loop zero i table_name row_count state = (ok tt, state)
  select_loop (suc left) i table_name row_count state =
      go_on
        (execute_statement (select_stmt (probe table_name (clause (probe_id row_count i)))) state)
        λ result state'.
          if is_expected used result
          then select_loop left (i + 1) table_name row_count state'
          else (err unexpected, state')

unfoldable pub benchmark_id_selects :
    Bytes → ℕ → ℕ → State → Result BenchmarkError (Unit {0}) × State
benchmark_id_selects table_name row_count probe_count state =
    select_loop id_clause true id_select_error probe_count 0 table_name row_count state

unfoldable pub benchmark_non_id_selects :
    Bytes → ℕ → ℕ → State → Result BenchmarkError (Unit {0}) × State
benchmark_non_id_selects table_name row_count probe_count state =
    select_loop name_clause false non_id_select_error probe_count 0 table_name row_count state

-- A part of the benchmark behind another.
abbrev pub behind :
    Result BenchmarkError (Unit {0}) × State
    → (State → Result BenchmarkError BenchmarkReport × State)
    → Result BenchmarkError BenchmarkReport × State
behind (err e, state) next = (err e, state)
behind (ok u, state) next = next state

abbrev pub measured :
    Bytes
    → Bytes
    → ℕ
    → ℕ
    → Result BenchmarkError (Unit {0}) × Disk
    → Result BenchmarkError BenchmarkReport × State
measured db_dir table_name row_count probe_count (err e, disk) =
    (err e, (init_execution_context db_dir, disk))
measured db_dir table_name row_count probe_count (ok u, disk) =
    behind (benchmark_bulk_insert row_count 0 table_name (init_execution_context db_dir, disk))
      λ s1. behind (benchmark_id_selects table_name row_count probe_count s1) λ s2.
        behind (benchmark_non_id_selects table_name row_count probe_count s2)
          λ s3. (ok (record { row_count = row_count; probe_count = probe_count }), s3)

unfoldable pub run_benchmark :
    (Bytes → Bool) → Disk → Bytes → Bytes → ℕ → ℕ → Result BenchmarkError BenchmarkReport × State
run_benchmark directory_fails disk db_dir table_name row_count probe_count =
    if row_count == 0 || probe_count == 0
    then (err invalid_arguments, (init_execution_context db_dir, disk))
    else measured db_dir table_name row_count probe_count
        (ensure_benchmark_schema directory_fails disk db_dir table_name)
