-- ===== src/Benchmark/Succeeds.antt =====
-- `run_benchmark` of src/benchmark.c succeeds.
use bptree_sql_engine.Prelude.{
  ℕ, ◌≤◌, ◌<◌, ◌≡◌, ◌≢◌, refl, sym, ap, ◌∙◌, subst, Bool, true, false, ◌||◌, ◌==◌, some, [], arith,
  if◌then◌else◌, Bytes, codes, length, Result, ok, err,
}
use bptree_sql_engine.Storage.File.{Disk, ends_in_separator}
use bptree_sql_engine.Storage.Table.{data_path}
use bptree_sql_engine.Storage.TableLaws.{write_rows, content_of, bytes_eq_refl}
use bptree_sql_engine.Schema.Load.{TableSchema, schema_path, load_table_schema}
use bptree_sql_engine.Runtime.Id.{uint64_max}
use bptree_sql_engine.Runtime.Context.{init_execution_context}
use bptree_sql_engine.Sql.Ast.{WhereClause, select_stmt}
use bptree_sql_engine.Executor.Execute.{ExecResult, State, execute_statement}
use bptree_sql_engine.Database.State.{Database, Holds}
use bptree_sql_engine.Program.MainSession.{locked_in, init-Represents}
use bptree_sql_engine.Benchmark.Run.{
  BenchmarkError, BenchmarkReport, invalid_arguments, data_file_error, id_select_error,
  non_id_select_error, id_clause, name_clause, probe, is_expected, ensure_benchmark_schema,
  benchmark_id_selects, benchmark_non_id_selects, behind, measured, run_benchmark,
}
use bptree_sql_engine.Benchmark.Rows.{benchmark_schema, benchmark_rows}
use bptree_sql_engine.Benchmark.Probes.{
  id-picks, name-picks, id-where, name-where, id-by_index, name-by_index, id-valid, name-valid,
}
use bptree_sql_engine.Benchmark.Steps.{Filled}
use bptree_sql_engine.Benchmark.Laws.{bulk_insert-Filled, probe-step, select_loop-Filled}
use bptree_sql_engine.Benchmark.Prepared.{
  with_schema, schema-refused, file_path-table_path, prepared, prepared-refused, prepared-schema,
  prepared-Holds, emptied,
}

-- What the benchmark needs of its directory: it exists or can be made, the two files can be opened,
-- its name does not end in a separator, and the paths fit the buffers.
pub record IsReady (directory_fails : Bytes → Bool) (disk : Disk) (db_dir table_name : Bytes)
    : Type 0 where
  pub directory : directory_fails db_dir ≡ false
  pub nonempty : db_dir ≢ []
  pub separator : ends_in_separator db_dir ≡ false
  pub schema_fits : length (schema_path db_dir table_name) < 1024
  pub data_fits : length (data_path db_dir table_name) < 1024
  pub schema_writable : disk.refused (schema_path db_dir table_name) ≡ false
  pub data_writable : disk.refused (data_path db_dir table_name) ≡ false

ensured :
    (directory_fails : Bytes → Bool) (disk : Disk) (db_dir table_name : Bytes)
    → IsReady directory_fails disk db_dir table_name
    → ensure_benchmark_schema directory_fails disk db_dir table_name
      ≡ (ok tt, prepared disk db_dir table_name)
unfolding ensure_benchmark_schema
ensured directory_fails disk db_dir table_name r =
    rw
      (
        r.directory,
        file_path-table_path db_dir table_name (codes ".schema") r.nonempty r.separator
            r.schema_fits,
        file_path-table_path db_dir table_name (codes ".data") r.nonempty r.separator r.data_fits,
        r.schema_writable,
      )
      (ap
        (λ (b : Bool).
          if b
          then (err data_file_error, with_schema disk db_dir table_name)
          else (ok tt, prepared disk db_dir table_name))
        (ap (λ f. f (data_path db_dir table_name)) (schema-refused disk db_dir table_name)
          ∙ r.data_writable))

-- Every key from 1 to the number of rows is answered as the benchmark expects.
abbrev pub AnswersAll : (ℕ → WhereClause) → Bool → Bytes → ℕ → State → Type 0
AnswersAll clause used table_name row_count state =
    (key : ℕ)
    → 0 < key
    → key ≤ row_count
    → (result : ExecResult) × ((execute_statement (select_stmt (probe table_name (clause key)))
          state).0
        ≡ ok result)
      × (is_expected used result ≡ true)

-- What a benchmark leaves: a report of the counts, the rows in the file of the table, and a state that
-- answers every id by the index with one row, and every name without the index with one row.
abbrev pub Reports : Bytes → ℕ → ℕ → Result BenchmarkError BenchmarkReport × State → Type 0
Reports table_name row_count probe_count (result, state) =
    (result ≡ ok (record { row_count = row_count; probe_count = probe_count }))
    × (content_of state.1 state.0.db_dir table_name ≡ write_rows (benchmark_rows row_count))
    × AnswersAll id_clause true table_name row_count state
    × AnswersAll name_clause false table_name row_count state

module _ (directory_fails : Bytes → Bool) (disk : Disk) (db_dir table_name : Bytes)
    (ready : IsReady directory_fails disk db_dir table_name) where
  measured-Reports :
      (db : Database) (row_count probe_count : ℕ)
      → 0 < row_count
      → row_count < uint64_max
      → ((name : Bytes) (schema : TableSchema)
          → name ≢ table_name
          → load_table_schema disk db_dir name ≡ ok schema
          → Holds disk db_dir name schema (db name))
      → Reports table_name row_count probe_count (
          measured db_dir table_name row_count probe_count (ok tt, prepared disk db_dir table_name))
  unfolding benchmark_id_selects benchmark_non_id_selects init_execution_context
  measured-Reports db row_count probe_count p h others =
      let disk' = prepared disk db_dir table_name in
      let catalog = load_table_schema disk' db_dir in
      let locked = locked_in disk' db_dir in
      let known = prepared-schema disk db_dir table_name ready.schema_writable in
      let unlocked : locked table_name ≡ false =
        ap (λ r. r (data_path db_dir table_name)) (prepared-refused disk db_dir table_name)
        ∙ ready.data_writable in
      let start : Filled catalog locked table_name known unlocked 0
          (init_execution_context db_dir, disk') =
        record {
          database = emptied disk db_dir table_name db;
          represents =
              init-Represents disk' db_dir (emptied disk db_dir table_name db)
                (prepared-Holds disk db_dir table_name db others);
          rows = rw (bytes_eq_refl table_name) refl;
        } in
      let (s1, run1, f1) =
        bulk_insert-Filled catalog locked table_name known unlocked row_count 0
          (init_execution_context db_dir, disk') (omega arith) start in
      let f1' =
        subst (λ n. Filled catalog locked table_name known unlocked n s1) (omega arith) f1 in
      let (s2, run2, f2) =
        select_loop-Filled catalog locked table_name known unlocked id_clause true id_select_error
          (some 0) (id-valid table_name) (id-where table_name)
          (λ key q fits. id-by_index table_name key q fits)
          (λ key i q fits row_fits. id-picks table_name key i q fits row_fits) probe_count 0
          row_count s1 h p f1' in
      let (s3, run3, f3) =
        select_loop-Filled catalog locked table_name known unlocked name_clause false
          non_id_select_error (some 1) (name-valid table_name) (name-where table_name)
          (λ key q fits. name-by_index table_name key)
          (λ key i q fits row_fits. name-picks table_name key i q fits row_fits) probe_count 0
          row_count s2 h p f2 in
      let run : measured db_dir table_name row_count probe_count (ok tt, disk')
          ≡ (ok (record { row_count = row_count; probe_count = probe_count }), s3) =
        ap
          (λ x. behind x λ t1.
            behind (benchmark_id_selects table_name row_count probe_count t1) λ t2.
              behind (benchmark_non_id_selects table_name row_count probe_count t2)
                λ t3. (ok (record { row_count = row_count; probe_count = probe_count }), t3))
          run1
        ∙ ap
            (λ x. behind x λ t2.
              behind (benchmark_non_id_selects table_name row_count probe_count t2)
                λ t3. (ok (record { row_count = row_count; probe_count = probe_count }), t3))
            run2
        ∙ ap
            (λ x.
              behind x λ t3. (ok (record { row_count = row_count; probe_count = probe_count }), t3))
            run3 in
      subst (Reports table_name row_count probe_count) (sym run) (
        refl,
        (f3.represents.contents table_name (benchmark_schema table_name) known).content
            ∙ ap write_rows f3.rows,
        λ key q le.
            let (result, answered, expected, _) =
              probe-step catalog locked table_name known unlocked id_clause true id_select_error
                (some 0) (id-valid table_name) (id-where table_name)
                (λ k p' fits. id-by_index table_name k p' fits)
                (λ k i p' fits row_fits. id-picks table_name k i p' fits row_fits) key row_count s3
                h q le f3 in
            (result, answered, expected),
        λ key q le.
            let (result, answered, expected, _) =
              probe-step catalog locked table_name known unlocked name_clause false
                non_id_select_error (some 1) (name-valid table_name) (name-where table_name)
                (λ k p' fits. name-by_index table_name k)
                (λ k i p' fits row_fits. name-picks table_name k i p' fits row_fits) key row_count
                s3 h q le f3 in
            (result, answered, expected),
      )

-- The benchmark reports its counts without an error, whatever its table and the table's files were
-- before: with a positive number of rows, below the greatest 64-bit number, and of probes, in a
-- directory that is ready for it and where the file of every other table with a schema that loads
-- holds rows, each with a value for each column and a last value that does not end in `\r`. Behind it
-- the file of its table holds the rows of all rounds, every id from 1 to the number of rows is
-- answered by the index with one row, and every name of a round without the index with one row.
pub run_benchmark-Reports :
    (directory_fails : Bytes → Bool) (disk : Disk) (db_dir table_name : Bytes) (db : Database)
    (row_count probe_count : ℕ)
    → IsReady directory_fails disk db_dir table_name
    → 0 < row_count
    → row_count < uint64_max
    → 0 < probe_count
    → ((name : Bytes) (schema : TableSchema)
        → name ≢ table_name
        → load_table_schema disk db_dir name ≡ ok schema
        → Holds disk db_dir name schema (db name))
    → Reports table_name row_count probe_count
        (run_benchmark directory_fails disk db_dir table_name row_count probe_count)
unfolding run_benchmark
run_benchmark-Reports directory_fails disk db_dir table_name db row_count probe_count ready p h q
      others =
    let counts : (row_count == 0 || probe_count == 0) ≡ false = ground arith in
    subst (Reports table_name row_count probe_count)
      (sym (
        ap
          (λ (b : Bool).
            if b
            then (err invalid_arguments, (init_execution_context db_dir, disk))
            else measured db_dir table_name row_count probe_count
                (ensure_benchmark_schema directory_fails disk db_dir table_name))
          counts
        ∙ ap (measured db_dir table_name row_count probe_count)
            (ensured directory_fails disk db_dir table_name ready)))
      (measured-Reports directory_fails disk db_dir table_name ready db row_count probe_count p h
        others)
