-- ===== src/Program/MainSession.antt =====
-- `main` of src/main.c on a directory of tables, as a session with a database.
use bptree_sql_engine.Prelude.{
  Bool, suc, ◌≡◌, ◌≢◌, refl, sym, ap, ◌∙◌, subst, false, none, some, List, [], ◌∷◌, Bytes, length,
  All, Result, ok, err, if◌then◌else◌, arith,
}
use bptree_sql_engine.Schema.Trim.{trim_start, trim_end, trim_in_place}
use bptree_sql_engine.Schema.Load.{TableSchema, load_table_schema}
use bptree_sql_engine.Storage.File.{Disk}
use bptree_sql_engine.Storage.FileLaws.{ends_in_cr}
use bptree_sql_engine.Storage.Table.{data_path}
use bptree_sql_engine.Sql.Lexer.{Token, LexError, tokenize_sql}
use bptree_sql_engine.Sql.FromTokens.{AllTexts}
use bptree_sql_engine.Sql.TokenBytes.{tokenize_sql-AllTexts}
use bptree_sql_engine.Runtime.Context.{init_execution_context}
use bptree_sql_engine.Executor.Execute.{State}
use bptree_sql_engine.Database.State.{Database, Holds, Represents}
use bptree_sql_engine.Program.Cli.{run, parse_cli_args}
use bptree_sql_engine.Program.Main.{
  run_lexed, run_text, unless_empty, read_text_file, run_file, run_command, main, Run, Status,
  status_file_error, status_lex_error, no_statement,
}
use bptree_sql_engine.Program.Script.{Script, lexed_script, text_script}
use bptree_sql_engine.Program.Sessions.{IsSession, nothing-IsSession, run_tokens-IsSession}

-- The files of a directory hold the rows of a database, as far as there are schemas.
abbrev pub Stores : Disk → Bytes → Database → Type 0
Stores disk db_dir db =
    (name : Bytes) (schema : TableSchema)
    → load_table_schema disk db_dir name ≡ ok schema
    → Holds disk db_dir name schema (db name)

abbrev pub locked_in : Disk → Bytes → Bytes → Bool
locked_in disk db_dir name = disk.refused (data_path db_dir name)

-- A context without tables represents what the directory holds.
pub init-Represents :
    (disk : Disk) (db_dir : Bytes) (db : Database)
    → Stores disk db_dir db
    → Represents
        (load_table_schema disk db_dir)
        (locked_in disk db_dir)
        db
        (init_execution_context db_dir, disk)
unfolding init_execution_context
init-Represents disk db_dir db h = record {
  schemas = λ name. refl;
  locks = λ name. refl;
  contents = h;
  tables = tt;
  distinct = tt;
}

abbrev Plain : Bytes → Type 0
Plain = All (λ c. c ≢ b'\r')

ends_in_cr-Plain : (text : Bytes) → Plain text → ends_in_cr text ≡ false
ends_in_cr-Plain [] h = refl
ends_in_cr-Plain (c ∷ []) h = ground arith
ends_in_cr-Plain (c ∷ d ∷ text) h = ends_in_cr-Plain (d ∷ text) h.1

All-ends :
    (tokens : List Token)
    → AllTexts Plain tokens
    → All (λ token. ends_in_cr token.text ≡ false) tokens
All-ends [] h = tt
All-ends (token ∷ tokens) h = (ends_in_cr-Plain token.text h.0, All-ends tokens h.1)

-- A text without `\r` has no token that ends in it.
pub tokenize_sql-ends :
    (sql : Bytes) (tokens : List Token)
    → All (λ c. c ≢ b'\r') sql
    → tokenize_sql sql ≡ ok tokens
    → All (λ token. ends_in_cr token.text ≡ false) tokens
tokenize_sql-ends sql tokens h e =
    All-ends tokens (tokenize_sql-AllTexts (λ c. c ≢ b'\r') sql tokens h e)

module _ (disk : Disk) (db_dir : Bytes) (db : Database) (h : Stores disk db_dir db) where
  abbrev start : State
  start = (init_execution_context db_dir, disk)

  abbrev Sessions : Script → Run → Type 0
  Sessions script = IsSession (load_table_schema disk db_dir) (locked_in disk db_dir) db script []

  stops-IsSession : (ending : Status) → Sessions ([], ending) ([], ending, start)
  stops-IsSession ending =
      nothing-IsSession (load_table_schema disk db_dir) (locked_in disk db_dir) db [] ending start
        (init-Represents disk db_dir db h)

  run_lexed-IsSession :
      (r : Result LexError (List Token))
      → ((tokens : List Token)
          → r ≡ ok tokens
          → All (λ token. ends_in_cr token.text ≡ false) tokens)
      → Sessions (lexed_script r) (run_lexed start r)
  run_lexed-IsSession (err e) k = stops-IsSession (status_lex_error e)
  run_lexed-IsSession (ok tokens) k =
      run_tokens-IsSession (load_table_schema disk db_dir) (locked_in disk db_dir)
        (suc (length tokens)) tokens no_statement db [] start refl
        (init-Represents disk db_dir db h) (k tokens refl)

  run_text-IsSession :
      (sql : Bytes)
      → ((tokens : List Token)
          → tokenize_sql sql ≡ ok tokens
          → All (λ token. ends_in_cr token.text ≡ false) tokens)
      → Sessions (text_script sql) (run_text start sql)
  run_text-IsSession [] k = stops-IsSession status_file_error
  run_text-IsSession (c ∷ sql) k = run_lexed-IsSession (tokenize_sql (c ∷ sql)) k

  run_read-IsSession :
      (sql : Bytes)
      → ((tokens : List Token)
          → tokenize_sql (trim_in_place sql) ≡ ok tokens
          → All (λ token. ends_in_cr token.text ≡ false) tokens)
      → Sessions (text_script (trim_in_place sql)) (run_file start (unless_empty (some sql)))
  unfolding trim_in_place trim_start trim_end
  run_read-IsSession [] k = stops-IsSession status_file_error
  run_read-IsSession (c ∷ sql) k = run_text-IsSession (trim_in_place (c ∷ sql)) k

-- The whole program, on a directory whose files hold the rows of a database: with a directory and an
-- SQL file on the command line, where the file can be opened and no token of its trimmed text ends
-- in `\r`, what is printed and the status are those of a session of this database with the statements
-- of the text. These are executed in their order, all up to the end of the text or the first that is
-- not accepted, or up to the first that fails; each has the result that its step says. The disk that
-- is left, with the context, represents the database behind the session.
pub main-IsSession :
    (args : List Bytes) (disk : Disk) (db_dir sql_file sql : Bytes) (db : Database)
    → parse_cli_args args ≡ some (run db_dir sql_file)
    → disk.refused sql_file ≡ false
    → disk.file sql_file ≡ some sql
    → ((tokens : List Token)
        → tokenize_sql (trim_in_place sql) ≡ ok tokens
        → All (λ token. ends_in_cr token.text ≡ false) tokens)
    → Stores disk db_dir db
    → IsSession
        (load_table_schema disk db_dir)
        (locked_in disk db_dir)
        db
        (text_script (trim_in_place sql))
        []
        (main args disk)
unfolding main
main-IsSession args disk db_dir sql_file sql db a e f k h =
    let read : read_text_file disk sql_file ≡ unless_empty (some sql) =
      ap (λ (b : Bool). if b then none else unless_empty (disk.file sql_file)) e
      ∙ ap unless_empty f in
    let reached : main args disk ≡ run_file (start disk db_dir db h) (unless_empty (some sql)) =
      ap (run_command disk) a ∙ ap (run_file (start disk db_dir db h)) read in
    subst
      (IsSession (load_table_schema disk db_dir) (locked_in disk db_dir) db
        (text_script (trim_in_place sql)) [])
      (sym reached) (run_read-IsSession disk db_dir db h sql k)
