-- ===== src/Program/Main.antt =====
-- `main` of src/main.c: the results that it prints, the status that it returns, and the disk that it
-- leaves.
use bptree_sql_engine.Prelude.{
  ℕ, zero, suc, true, false, Option, none, some, List, [], ◌∷◌, ◌++◌, if◌then◌else◌, Bytes, length,
  Result, ok, err,
}
use bptree_sql_engine.Schema.Trim.{trim_in_place}
use bptree_sql_engine.Storage.File.{Disk}
use bptree_sql_engine.Runtime.Context.{init_execution_context}
use bptree_sql_engine.Sql.Lexer.{LexError, token_eof, Token, tokenize_sql}
use bptree_sql_engine.Sql.Parser.{
  ParseError, has_type, parser_skip_semicolons, parse_next_statement,
}
use bptree_sql_engine.Executor.Insert.{ExecError}
use bptree_sql_engine.Executor.Execute.{ExecResult, State, execute_statement}
use bptree_sql_engine.Program.Cli.{Command, show_usage, run, parse_cli_args}

pub data Status : Type 0 where
  status_ok status_invalid_args status_file_error no_statement : Status
  status_lex_error : LexError → Status
  status_parse_error : ParseError → Status
  status_exec_error : ExecError → Status

abbrev pub Run : Type 0
Run = List ExecResult × Status × State

-- `executed_statement_count == 0U`
abbrev pub final_status : List ExecResult → Status
final_status [] = no_statement
final_status (result ∷ results) = status_ok

-- What follows a statement that was executed.
abbrev pub after :
    List ExecResult → Result ExecError ExecResult × State → (List ExecResult → State → Run) → Run
after printed (err e, state) next = (printed, status_exec_error e, state)
after printed (ok result, state) next = next (printed ++ result ∷ []) state

-- The two loops over the tokens, with the results that are printed already. A statement takes at
-- least one token, so fuel above the number of tokens is not used up.
unfoldable pub run_tokens : ℕ → List Token → List ExecResult → State → Run
run_tokens zero tokens printed state = (printed, final_status printed, state)
run_tokens (suc fuel) tokens printed state = elim (parser_skip_semicolons tokens) [
  | [] ↦ (printed, final_status printed, state)
  | token ∷ tokens' ↦ elim (has_type token token_eof) [
    | true ↦ (printed, final_status printed, state)
    | false ↦ elim (parse_next_statement (token ∷ tokens')) [
      | err e ↦ (printed, status_parse_error e, state)
      | ok (stmt, rest) ↦ after printed (execute_statement stmt state) (run_tokens fuel rest)
    ]
  ]
]

abbrev pub run_lexed : State → Result LexError (List Token) → Run
run_lexed state (err e) = ([], status_lex_error e, state)
run_lexed state (ok tokens) = run_tokens (suc (length tokens)) tokens [] state

abbrev pub run_text : State → Bytes → Run
run_text state [] = ([], status_file_error, state)
run_text state (c ∷ text) = run_lexed state (tokenize_sql (c ∷ text))

-- `size <= 0`
abbrev pub unless_empty : Option Bytes → Option Bytes
unless_empty none = none
unless_empty (some []) = none
unless_empty (some (c ∷ content)) = some (c ∷ content)

abbrev pub read_text_file : Disk → Bytes → Option Bytes
read_text_file disk path = if disk.refused path then none else unless_empty (disk.file path)

-- `trim_whitespace` trims as `trim_in_place` does; a text file has no NUL byte.
abbrev pub run_file : State → Option Bytes → Run
run_file state none = ([], status_file_error, state)
run_file state (some content) = run_text state (trim_in_place content)

abbrev pub run_command : Disk → Option Command → Run
run_command disk none = ([], status_invalid_args, (init_execution_context [], disk))
run_command disk (some show_usage) = ([], status_ok, (init_execution_context [], disk))
run_command disk (some (run db_dir sql_file)) =
    run_file (init_execution_context db_dir, disk) (read_text_file disk sql_file)

unfoldable pub main : List Bytes → Disk → Run
main args disk = run_command disk (parse_cli_args args)
