-- ===== src/Program/SessionExamples.antt =====
-- A run of the whole program on an empty table, as a session.
use bptree_sql_engine.Prelude.{
  ◌≡◌, ◌≢◌, refl, subst, sym, ap, Bool, false, ◌||◌, ◌==◌, none, some, [], ◌∷◌, if◌then◌else◌,
  Bytes, codes, All, Bool-cases, inl, inr,
}
use bptree_sql_engine.Schema.Trim.{trim_in_place, trim_start, trim_end, is_space}
use bptree_sql_engine.Schema.Load.{load_table_schema}
use bptree_sql_engine.Storage.File.{bytes_eq, build_table_path, directory_prefix}
use bptree_sql_engine.Storage.Table.{data_path}
use bptree_sql_engine.Storage.TableLaws.{stored, content_of}
use bptree_sql_engine.Storage.Paths.{schema_path-data_path}
use bptree_sql_engine.Runtime.Context.{init_execution_context}
use bptree_sql_engine.Sql.Ast.{select_stmt}
use bptree_sql_engine.Executor.Execute.{result_insert, execute_statement}
use bptree_sql_engine.Database.State.{Database, Catalog, Represents}
use bptree_sql_engine.Database.Change.{bytes_eq-differs}
use bptree_sql_engine.Database.Open.{Refines}
use bptree_sql_engine.Database.Deterministic.{Step-select_stmt}
use bptree_sql_engine.Database.Independent.{execute_statement_independent}
use bptree_sql_engine.Database.Refinement.{execute_statement-Refines}
use bptree_sql_engine.Program.Cli.{parse_args, parse_cli_args}
use bptree_sql_engine.Program.Main.{main}
use bptree_sql_engine.Program.Examples.{
  sql, disk, arguments, insertion, selection, start, whole_run,
}
use bptree_sql_engine.Program.Sessions.{IsSession}
use bptree_sql_engine.Program.Restart.{Starts, Runs, main_twice}
use bptree_sql_engine.Program.Script.{text_script}
use bptree_sql_engine.Program.MainSession.{
  Stores, locked_in, init-Represents, tokenize_sql-ends, main-IsSession,
}

abbrev empty_database : Database
empty_database name = []

abbrev has_cr : Bytes → Bool
has_cr [] = false
has_cr (c ∷ text) = c == b'\r' || has_cr text

has_cr-All : (text : Bytes) → has_cr text ≡ false → All (λ c. c ≢ b'\r') text
has_cr-All [] e = tt
has_cr-All (c ∷ text) e = elim (Bool-cases (c == b'\r')) [
  | inl f ↦ absurd (cc (rw f at e))
  | inr f ↦ ((λ g. cc (ap (λ n. n == b'\r') g, f)), has_cr-All text (rw f at e))
]

no_data : (name : Bytes) → content_of disk (codes "db") name ≡ []
unfolding build_table_path directory_prefix
no_data name =
    let differs : bytes_eq (data_path (codes "db") name) (codes "db/t.schema") ≡ false =
      bytes_eq-differs (data_path (codes "db") name) (codes "db/t.schema")
        (λ e. schema_path-data_path (codes "db") (codes "t") name (sym e)) in
    ap (λ b. stored (if b then some (codes "id\nname\n") else none)) differs

disk-Stores : Stores disk (codes "db") empty_database
disk-Stores name schema e = record { content = no_data name; shapes = tt }

main-IsSession_example :
    IsSession
      (load_table_schema disk (codes "db"))
      (locked_in disk (codes "db"))
      empty_database
      (text_script (trim_in_place sql))
      []
      (main arguments disk)
unfolding parse_args parse_cli_args trim_in_place trim_start trim_end is_space
main-IsSession_example =
    main-IsSession arguments disk (codes "db") (codes "a.sql") sql empty_database refl refl refl
      (λ tokens e. tokenize_sql-ends (trim_in_place sql) tokens (has_cr-All sql refl) e) disk-Stores

execute_statement-Refines_example :
    Refines
      (load_table_schema disk (codes "db"))
      (locked_in disk (codes "db"))
      empty_database
      insertion
      (execute_statement insertion (init_execution_context (codes "db"), disk))
execute_statement-Refines_example =
    execute_statement-Refines (load_table_schema disk (codes "db")) (locked_in disk (codes "db"))
      empty_database insertion (init_execution_context (codes "db"), disk)
      (init-Represents disk (codes "db") empty_database disk-Stores) (refl, tt)

-- The SQL file before the run and behind it.
first-Starts : Starts arguments disk (codes "db") sql
unfolding parse_args parse_cli_args trim_in_place trim_start trim_end is_space
first-Starts = (
  codes "a.sql",
  refl,
  refl,
  refl,
  (λ tokens e. tokenize_sql-ends (trim_in_place sql) tokens (has_cr-All sql refl) e),
)

second-Starts : Starts arguments (main arguments disk).2.1 (codes "db") sql
unfolding parse_args parse_cli_args trim_in_place trim_start trim_end is_space
second-Starts = (
  codes "a.sql",
  refl,
  whole_run.2,
  whole_run.1,
  (λ tokens e. tokenize_sql-ends (trim_in_place sql) tokens (has_cr-All sql refl) e),
)

main_twice_example :
    (middle : Database) × (last : Database) × Runs
      (load_table_schema disk (codes "db"))
      (locked_in disk (codes "db"))
      empty_database
      sql
      (main arguments disk)
      middle
    × Runs
        (load_table_schema disk (codes "db"))
        (locked_in disk (codes "db"))
        middle
        sql
        (main arguments (main arguments disk).2.1)
        last
    × Stores (main arguments (main arguments disk).2.1).2.1 (codes "db") last
main_twice_example =
    main_twice arguments arguments disk (codes "db") sql sql empty_database first-Starts
      second-Starts disk-Stores

-- The state behind a SELECT, which has loaded the table.
loaded-Represents :
    Represents
      (load_table_schema disk (codes "db"))
      (locked_in disk (codes "db"))
      empty_database
      (execute_statement (select_stmt selection) start).1
loaded-Represents =
    let catalog : Catalog = load_table_schema disk (codes "db") in
    let locked : Bytes → Bool = locked_in disk (codes "db") in
    let (db', step, r) =
      execute_statement-Refines catalog locked empty_database (select_stmt selection) start
        (init-Represents disk (codes "db") empty_database disk-Stores) tt in
    subst (λ d. Represents catalog locked d (execute_statement (select_stmt selection) start).1)
      (Step-select_stmt catalog locked empty_database selection _ db' step) r

execute_statement_independent_example :
    (result_insert (some 1) ≡ result_insert (some 1))
    × (db' : Database) × Represents
        (load_table_schema disk (codes "db"))
        (locked_in disk (codes "db"))
        db'
        (execute_statement insertion start).1
    × Represents
        (load_table_schema disk (codes "db"))
        (locked_in disk (codes "db"))
        db'
        (execute_statement insertion (execute_statement (select_stmt selection) start).1).1
execute_statement_independent_example =
    execute_statement_independent (load_table_schema disk (codes "db"))
      (locked_in disk (codes "db")) empty_database insertion start
      (execute_statement (select_stmt selection) start).1 (result_insert (some 1))
      (result_insert (some 1)) (init-Represents disk (codes "db") empty_database disk-Stores)
      loaded-Represents (refl, tt) whole_run.3 whole_run.4
