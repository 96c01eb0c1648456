-- ===== src/Program/Restart.antt =====
-- What `main` of src/main.c leaves on the disk is what a later run starts from.
use mathlib.Core.Path.{fun_ext}
use bptree_sql_engine.Prelude.{
  ℕ, zero, suc, ◌≡◌, refl, sym, ap, ◌∙◌, subst, Bool, false, Option, none, some, List, [], ◌∷◌,
  ◌++◌, Bytes, length, All, Result, ok, err, Bool-cases, inl, inr,
}
use bptree_sql_engine.Schema.Trim.{trim_in_place}
use bptree_sql_engine.Schema.Load.{load_table_schema}
use bptree_sql_engine.Storage.File.{Disk}
use bptree_sql_engine.Storage.FileLaws.{ends_in_cr}
use bptree_sql_engine.Runtime.Context.{
  TableRuntime, ExecutionContext, RuntimeError, init_execution_context, find_table, add_table,
  found_or_loaded, get_or_load_table_runtime,
}
use bptree_sql_engine.Sql.Ast.{
  InsertStatement, SelectStatement, Statement, insert_stmt, select_stmt,
}
use bptree_sql_engine.Sql.Lexer.{token_eof, Token, LexError, tokenize_sql}
use bptree_sql_engine.Sql.Parser.{has_type, parser_skip_semicolons, parse_next_statement}
use bptree_sql_engine.Executor.Execute.{
  ExecResult, State, Outcome, insert_at_table, insert_loaded, execute_insert, select_at_table,
  select_loaded, execute_select, execute_statement,
}
use bptree_sql_engine.Database.State.{Database, Catalog, Represents}
use bptree_sql_engine.Program.Cli.{run, parse_cli_args}
use bptree_sql_engine.Program.Main.{
  Run, after, run_tokens, run_lexed, run_text, run_file, read_text_file, run_command, main,
}
use bptree_sql_engine.Program.MainLaws.{tokens-cases, parse-cases}
use bptree_sql_engine.Program.Script.{text_script}
use bptree_sql_engine.Program.Sessions.{Session}
use bptree_sql_engine.Program.MainSession.{Stores, locked_in, main-IsSession}

module _ (db_dir : Bytes) where
  -- The directory of a context does not change.
  abbrev Stays : State → Type 0
  Stays state = state.0.db_dir ≡ db_dir

  abbrev LookedUp : Result RuntimeError ℕ × ExecutionContext × Disk → Type 0
  LookedUp (result, ctx, disk) = ctx.db_dir ≡ db_dir

  add_table-LookedUp :
      (ctx : ExecutionContext) (r : Result RuntimeError TableRuntime × Disk)
      → ctx.db_dir ≡ db_dir
      → LookedUp (add_table ctx r)
  add_table-LookedUp ctx (err e, disk) h = h
  add_table-LookedUp ctx (ok table, disk) h = h

  get_or_load-LookedUp :
      (ctx : ExecutionContext) (disk : Disk) (name : Bytes) (o : Option ℕ)
      → ctx.db_dir ≡ db_dir
      → LookedUp (found_or_loaded ctx disk name o)
  get_or_load-LookedUp ctx disk name (some i) h = h
  get_or_load-LookedUp ctx disk name none h = add_table-LookedUp ctx _ h

  insert_at_table-Stays :
      (ctx : ExecutionContext) (disk : Disk) (stmt : InsertStatement) (i : ℕ)
      (o : Option TableRuntime)
      → ctx.db_dir ≡ db_dir
      → Stays (insert_at_table ctx disk stmt i o).1
  insert_at_table-Stays ctx disk stmt i none h = h
  insert_at_table-Stays ctx disk stmt i (some table) h = h

  select_at_table-Stays :
      (ctx : ExecutionContext) (disk : Disk) (stmt : SelectStatement) (o : Option TableRuntime)
      → ctx.db_dir ≡ db_dir
      → Stays (select_at_table ctx disk stmt o).1
  select_at_table-Stays ctx disk stmt none h = h
  select_at_table-Stays ctx disk stmt (some table) h = h

  insert_loaded-Stays :
      (stmt : InsertStatement) (x : Result RuntimeError ℕ × ExecutionContext × Disk)
      → LookedUp x
      → Stays (insert_loaded stmt x).1
  insert_loaded-Stays stmt (err e, ctx, disk) h = h
  insert_loaded-Stays stmt (ok i, ctx, disk) h = insert_at_table-Stays ctx disk stmt i _ h

  select_loaded-Stays :
      (stmt : SelectStatement) (x : Result RuntimeError ℕ × ExecutionContext × Disk)
      → LookedUp x
      → Stays (select_loaded stmt x).1
  select_loaded-Stays stmt (err e, ctx, disk) h = h
  select_loaded-Stays stmt (ok i, ctx, disk) h = select_at_table-Stays ctx disk stmt _ h

  execute_statement-Stays :
      (stmt : Statement) (state : State) → Stays state → Stays (execute_statement stmt state).1
  unfolding execute_statement execute_insert execute_select get_or_load_table_runtime
  execute_statement-Stays (insert_stmt stmt) (ctx, disk) h =
      insert_loaded-Stays stmt
        (found_or_loaded ctx disk stmt.table_name (find_table ctx.tables stmt.table_name))
        (get_or_load-LookedUp ctx disk stmt.table_name (find_table ctx.tables stmt.table_name) h)
  execute_statement-Stays (select_stmt stmt) (ctx, disk) h =
      select_loaded-Stays stmt
        (found_or_loaded ctx disk stmt.table_name (find_table ctx.tables stmt.table_name))
        (get_or_load-LookedUp ctx disk stmt.table_name (find_table ctx.tables stmt.table_name) h)

  after-Stays :
      (printed : List ExecResult) (outcome : Outcome) (later : List ExecResult → State → Run)
      → Stays outcome.1
      → ((p : List ExecResult) (s : State) → Stays s → Stays (later p s).2)
      → Stays (after printed outcome later).2
  after-Stays printed (err e, state) later h k = h
  after-Stays printed (ok result, state) later h k = k (printed ++ result ∷ []) state h

  run_tokens-Stays :
      (fuel : ℕ) (tokens : List Token) (printed : List ExecResult) (state : State)
      → Stays state
      → Stays (run_tokens fuel tokens printed state).2
  unfolding run_tokens
  run_tokens-Stays zero tokens printed state h = h
  run_tokens-Stays (suc fuel) tokens printed state h =
      elim (tokens-cases (parser_skip_semicolons tokens)) [
        | inl e ↦ rw (run_tokens, e) h
        | inr (token, later, e) ↦ elim (Bool-cases (has_type token token_eof)) [
          | inl f ↦ rw (run_tokens, e, f) h
          | inr f ↦ elim (parse-cases (parse_next_statement (token ∷ later))) [
            | inl (x, g) ↦ rw (run_tokens, e, f, g) h
            | inr (stmt, rest, g) ↦
                rw (run_tokens, e, f, g)
                  (after-Stays printed (execute_statement stmt state) (run_tokens fuel rest)
                    (execute_statement-Stays stmt state h)
                    (λ p s k. run_tokens-Stays fuel rest p s k))
          ]
        ]
      ]

  run_lexed-Stays :
      (state : State) (r : Result LexError (List Token)) → Stays state → Stays (run_lexed state r).2
  run_lexed-Stays state (err e) h = h
  run_lexed-Stays state (ok tokens) h = run_tokens-Stays (suc (length tokens)) tokens [] state h

  run_text-Stays : (state : State) (sql : Bytes) → Stays state → Stays (run_text state sql).2
  run_text-Stays state [] h = h
  run_text-Stays state (c ∷ sql) h = run_lexed-Stays state (tokenize_sql (c ∷ sql)) h

  run_file-Stays : (state : State) (o : Option Bytes) → Stays state → Stays (run_file state o).2
  run_file-Stays state none h = h
  run_file-Stays state (some content) h = run_text-Stays state (trim_in_place content) h

-- `main` keeps the directory of its command line.
main-db_dir :
    (args : List Bytes) (disk : Disk) (db_dir sql_file : Bytes)
    → parse_cli_args args ≡ some (run db_dir sql_file)
    → (main args disk).2.0.db_dir ≡ db_dir
unfolding main init_execution_context
main-db_dir args disk db_dir sql_file a =
    subst (λ (r : Run). r.2.0.db_dir ≡ db_dir) (sym (ap (run_command disk) a))
      (run_file-Stays db_dir (init_execution_context db_dir, disk) (read_text_file disk sql_file)
        refl)

-- What a context and a disk represent is what the files of the directory hold.
Represents-Stores :
    (catalog : Catalog) (locked : Bytes → Bool) (db : Database) (state : State)
    → Represents catalog locked db state
    → Stores state.1 state.0.db_dir db
Represents-Stores catalog locked db state r name schema e =
    r.contents name schema (sym (r.schemas name) ∙ e)

-- The command line names the directory and an SQL file that holds `sql` and can be opened, and no token
-- of the trimmed text of this file ends in `\r`.
abbrev pub Starts : List Bytes → Disk → Bytes → Bytes → Type 0
Starts args disk db_dir sql =
    (sql_file : Bytes) × (parse_cli_args args ≡ some (run db_dir sql_file))
    × (disk.refused sql_file ≡ false)
    × (disk.file sql_file ≡ some sql)
    × ((tokens : List Token)
        → tokenize_sql (trim_in_place sql) ≡ ok tokens
        → All (λ token. ends_in_cr token.text ≡ false) tokens)

-- The database behind a session with the statements of `sql`, whose results and status are those of
-- the run.
abbrev pub Runs : Catalog → (Bytes → Bool) → Database → Bytes → Run → Database → Type 0
Runs catalog locked db sql outcome last =
    let script = text_script (trim_in_place sql) in
    Session catalog locked db script.0 script.1 outcome.0 outcome.1 last

-- A run leaves the rows of the database behind its session in the files, with the schemas and the
-- locks as they were.
pub main-Stores :
    (args : List Bytes) (disk : Disk) (db_dir sql : Bytes) (db : Database)
    → Starts args disk db_dir sql
    → Stores disk db_dir db
    → (last : Database) × Runs
        (load_table_schema disk db_dir)
        (locked_in disk db_dir)
        db
        sql
        (main args disk)
        last
      × Stores (main args disk).2.1 db_dir last
      × ((name : Bytes)
          → load_table_schema (main args disk).2.1 db_dir name ≡ load_table_schema disk db_dir name)
      × ((name : Bytes) → locked_in (main args disk).2.1 db_dir name ≡ locked_in disk db_dir name)
main-Stores args disk db_dir sql db (sql_file, a, e, f, k) h =
    let s = main-IsSession args disk db_dir sql_file sql db a e f k h in
    let dir = main-db_dir args disk db_dir sql_file a in
    let script = text_script (trim_in_place sql) in
    let state : State = (main args disk).2 in
    (
      s.last,
      subst
          (λ r.
            Session (load_table_schema disk db_dir) (locked_in disk db_dir) db script.0 script.1 r
              (main args disk).1 s.last)
          (sym s.output) s.session,
      subst (λ d. Stores state.1 d s.last) dir
          (Represents-Stores (load_table_schema disk db_dir) (locked_in disk db_dir) s.last state
            s.represents),
      subst
          (λ d.
            (name : Bytes) → load_table_schema state.1 d name ≡ load_table_schema disk db_dir name)
          dir s.represents.schemas,
      subst (λ d. (name : Bytes) → locked_in state.1 d name ≡ locked_in disk db_dir name) dir
          s.represents.locks,
    )

-- Two runs of `main` one after the other, the second on the disk that the first leaves, with the same
-- directory, whose files hold the rows of a database, and SQL files that can be opened and have no
-- token that ends in `\r`: the first prints the results of a session of this database with the
-- statements of its file, and the second those of a session with the statements of its file that goes
-- on where the first has ended, with the same schemas. The files then hold the rows of the database
-- behind both. So what a run has inserted is there when the next run starts.
pub main_twice :
    (args args' : List Bytes) (disk : Disk) (db_dir sql sql' : Bytes) (db : Database)
    → Starts args disk db_dir sql
    → Starts args' (main args disk).2.1 db_dir sql'
    → Stores disk db_dir db
    → (middle : Database) × (last : Database) × Runs
        (load_table_schema disk db_dir)
        (locked_in disk db_dir)
        db
        sql
        (main args disk)
        middle
      × Runs
          (load_table_schema disk db_dir)
          (locked_in disk db_dir)
          middle
          sql'
          (main args' (main args disk).2.1)
          last
      × Stores (main args' (main args disk).2.1).2.1 db_dir last
main_twice args args' disk db_dir sql sql' db a a' h =
    let (middle, first, stored, schemas, locks) = main-Stores args disk db_dir sql db a h in
    let disk' : Disk = (main args disk).2.1 in
    let (last, second, left, _, _) = main-Stores args' disk' db_dir sql' middle a' stored in
    let behind : Runs (load_table_schema disk db_dir) (locked_in disk db_dir) middle sql'
        (main args' disk') last =
      subst (λ (c : Catalog). Runs c (locked_in disk db_dir) middle sql' (main args' disk') last)
        (fun_ext schemas)
        (subst
          (λ (l : Bytes → Bool).
            Runs (load_table_schema disk' db_dir) l middle sql' (main args' disk') last)
          (fun_ext locks) second) in
    (middle, last, first, behind, left)
