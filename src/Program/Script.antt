-- ===== src/Program/Script.antt =====
-- What the text of an SQL file says: its statements, which src/lexer.c and src/parser.c read without
-- a database, and the status of `main` of src/main.c where none of them fails.
use bptree_sql_engine.Prelude.{
  ℕ, zero, suc, true, false, List, [], ◌∷◌, Bytes, length, Result, ok, err,
}
use bptree_sql_engine.Sql.Ast.{Statement}
use bptree_sql_engine.Sql.Lexer.{LexError, token_eof, Token, tokenize_sql}
use bptree_sql_engine.Sql.Parser.{has_type, parser_skip_semicolons, parse_next_statement}
use bptree_sql_engine.Program.Main.{
  Status, status_ok, status_file_error, no_statement, status_lex_error, status_parse_error,
}

-- The statements up to the end or to the first that is not accepted, and the status behind them.
abbrev pub Script : Type 0
Script = List Statement × Status

abbrev pub with_first : Statement → Script → Script
with_first stmt (stmts, ending) = (stmt ∷ stmts, ending)

-- The statements of the tokens, with `ending` as the status at the end of the text. Behind a
-- statement this is success.
unfoldable pub token_script : ℕ → List Token → Status → Script
token_script zero tokens ending = ([], ending)
token_script (suc fuel) tokens ending = elim (parser_skip_semicolons tokens) [
  | [] ↦ ([], ending)
  | token ∷ later ↦ elim (has_type token token_eof) [
    | true ↦ ([], ending)
    | false ↦ elim (parse_next_statement (token ∷ later)) [
      | err e ↦ ([], status_parse_error e)
      | ok (stmt, rest) ↦ with_first stmt (token_script fuel rest status_ok)
    ]
  ]
]

abbrev pub lexed_script : Result LexError (List Token) → Script
lexed_script (err e) = ([], status_lex_error e)
lexed_script (ok tokens) = token_script (suc (length tokens)) tokens no_statement

-- The script of a text that is trimmed.
abbrev pub text_script : Bytes → Script
text_script [] = ([], status_file_error)
text_script (c ∷ text) = lexed_script (tokenize_sql (c ∷ text))
