-- ===== src/Benchmark/Examples.antt =====
-- A benchmark in an empty directory.
use bptree_sql_engine.Prelude.{refl, false, none, [], arith, codes}
use bptree_sql_engine.Storage.File.{Disk, directory_prefix, build_table_path}
use bptree_sql_engine.Schema.Load.{load_table_schema}
use bptree_sql_engine.Database.State.{Database}
use bptree_sql_engine.Benchmark.Run.{run_benchmark}
use bptree_sql_engine.Benchmark.Succeeds.{IsReady, Reports, run_benchmark-Reports}

abbrev disk : Disk
disk = record { file = λ path. none; refused = λ path. false }

abbrev empty_database : Database
empty_database name = []

ready : IsReady (λ path. false) disk (codes "bench") (codes "users")
unfolding build_table_path directory_prefix
ready = record {
  directory = refl;
  nonempty = λ e. cc;
  separator = refl;
  schema_fits = omega arith;
  data_fits = omega arith;
  schema_writable = refl;
  data_writable = refl;
}

run_benchmark-Reports_example :
    Reports
      (codes "users")
      3
      5
      (run_benchmark (λ path. false) disk (codes "bench") (codes "users") 3 5)
unfolding load_table_schema
run_benchmark-Reports_example =
    run_benchmark-Reports (λ path. false) disk (codes "bench") (codes "users") empty_database 3 5
      ready (omega arith) (omega arith) (omega arith) (λ name schema h e. absurd cc)
