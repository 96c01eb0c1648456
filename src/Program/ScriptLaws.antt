-- ===== src/Program/ScriptLaws.antt =====
-- The text of statements, which src/lexer.c and src/parser.c read back.
use bptree_sql_engine.Prelude.{
  ℕ, zero, suc, ◌<◌, ◌≡◌, ◌≢◌, refl, ap, ◌∙◌, List, [], ◌∷◌, ◌++◌, append_assoc, arith, length,
  length-append, All,
}
use bptree_sql_engine.Sql.Ast.{Statement, insert_stmt, select_stmt}
use bptree_sql_engine.Sql.Lexer.{Token, token_semicolon, eof, tokenize_sql}
use bptree_sql_engine.Sql.Parser.{parser_skip_semicolons}
use bptree_sql_engine.Sql.Printed.{mark, statement_tokens}
use bptree_sql_engine.Sql.ParserLaws.{IsStatement, parse_next-tokens}
use bptree_sql_engine.Sql.Lexed.{tokenize_sql-print}
use bptree_sql_engine.Sql.SqlText.{IsSql, script_tokens, sql_text, script_tokens-Lexes}
use bptree_sql_engine.Program.Main.{Status, status_ok, no_statement}
use bptree_sql_engine.Program.Script.{with_first, token_script, lexed_script, text_script}

token_script-statement :
    (fuel : ℕ) (stmt : Statement) (rest : List Token) (ending : Status)
    → IsStatement stmt
    → token_script (suc fuel) (statement_tokens stmt ++ mark token_semicolon ∷ rest) ending
      ≡ with_first stmt (token_script fuel rest status_ok)
unfolding token_script parser_skip_semicolons
token_script-statement fuel (insert_stmt stmt) rest ending h =
    rw (token_script, parse_next-tokens (insert_stmt stmt) rest h) refl
token_script-statement fuel (select_stmt stmt) rest ending h =
    rw (token_script, parse_next-tokens (select_stmt stmt) rest h) refl

-- The status behind the statements.
abbrev behind_all : Status → List Statement → Status
behind_all ending [] = ending
behind_all ending (stmt ∷ stmts) = status_ok

behind_all-ok : (stmts : List Statement) → behind_all status_ok stmts ≡ status_ok
behind_all-ok [] = refl
behind_all-ok (stmt ∷ stmts) = refl

token_script-tokens :
    (fuel : ℕ) (stmts : List Statement) (ending : Status)
    → All IsStatement stmts
    → length (script_tokens stmts) < fuel
    → token_script fuel (script_tokens stmts ++ eof ∷ []) ending ≡ (stmts, behind_all ending stmts)
unfolding token_script parser_skip_semicolons
token_script-tokens zero stmts ending h l = absurd (omega arith)
token_script-tokens (suc fuel) [] ending h l = refl
token_script-tokens (suc fuel) (stmt ∷ stmts) ending (h, hs) l =
    let counted =
      length-append (statement_tokens stmt) (mark token_semicolon ∷ script_tokens stmts) in
    ap (λ t. token_script (suc fuel) t ending)
      (append_assoc (statement_tokens stmt) (mark token_semicolon ∷ script_tokens stmts) (eof ∷ []))
    ∙ token_script-statement fuel stmt (script_tokens stmts ++ eof ∷ []) ending h
    ∙ ap (with_first stmt) (
        token_script-tokens fuel stmts status_ok hs (omega (arith, l, counted))
        ∙ ap (λ s. (stmts, s)) (behind_all-ok stmts))

-- A text that is not empty.
text_script-nonempty :
    (stmts : List Statement)
    → stmts ≢ []
    → text_script (sql_text stmts) ≡ lexed_script (tokenize_sql (sql_text stmts))
text_script-nonempty [] n = absurd (n refl)
text_script-nonempty (insert_stmt stmt ∷ stmts) n = refl
text_script-nonempty (select_stmt stmt ∷ stmts) n = refl

-- Statements are read back from their text, all of them in their order and without an error: the
-- keywords in upper case, a space behind each token, a semicolon behind each statement. There is at
-- least one statement, an INSERT has a value, a SELECT has either `*` or a column, the names are
-- identifiers that are no keywords, a text stands in quotes and may hold any byte, with each quote
-- in it twice, and a number has digits, with a sign or a fraction or without.
pub text_script-sql_text :
    (stmts : List Statement)
    → stmts ≢ []
    → All IsStatement stmts
    → All IsSql stmts
    → text_script (sql_text stmts) ≡ (stmts, status_ok)
text_script-sql_text [] n h s = absurd (n refl)
text_script-sql_text (stmt ∷ stmts) n h s =
    text_script-nonempty (stmt ∷ stmts) n
    ∙ ap lexed_script
        (tokenize_sql-print (script_tokens (stmt ∷ stmts)) (script_tokens-Lexes (stmt ∷ stmts) s))
    ∙ token_script-tokens (suc (length (script_tokens (stmt ∷ stmts) ++ eof ∷ []))) (stmt ∷ stmts)
        no_statement h (omega (arith, length-append (script_tokens (stmt ∷ stmts)) (eof ∷ [])))
