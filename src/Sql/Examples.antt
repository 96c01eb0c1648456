-- ===== src/Sql/Examples.antt =====
-- Texts and tokens of a small SQL program.
use bptree_sql_engine.Schema.Trim.{is_space}
use bptree_sql_engine.Prelude.{
  ◌≡◌, refl, false, some, List, [], ◌∷◌, ◌++◌, arith, Bytes, codes, Result, ok, err,
}
use bptree_sql_engine.Sql.Ast.{value_string, value_number, Statement, insert_stmt, select_stmt}
use bptree_sql_engine.Sql.Lexer.{
  token_string, Token, LexError, quote, tokenize_string, tokenize_loop, tokenize_sql, next_token,
  tokenize_identifier, word, tokenize_symbol, tokenize_number, number_text,
}
use bptree_sql_engine.Sql.Literals.{quoted, tokenize_string-quoted}
use bptree_sql_engine.Sql.LexerLaws.{EndsInEof, tokenize_sql-EndsInEof, tokenize_loop_fuel}

abbrev text : Bytes
text = codes "it's"

tokenize_string-quoted_example :
    tokenize_string (quote ∷ (quoted text ++ quote ∷ codes ");"))
    ≡ ok (record { type = token_string; text = text }, codes ");")
tokenize_string-quoted_example = tokenize_string-quoted text (codes ");") (λ e. omega arith)

abbrev sql : Bytes
sql = codes "SELECT * FROM t WHERE id = -2.5;"

abbrev tokens_of : Result LexError (List Token) → List Token
tokens_of (ok tokens) = tokens
tokens_of (err e) = []

abbrev sql_tokens : List Token
unfolding tokenize_sql
sql_tokens = tokens_of (tokenize_sql sql)

sql-tokens : tokenize_sql sql ≡ ok sql_tokens
unfolding sql_tokens is_space next_token tokenize_identifier word tokenize_symbol tokenize_number
    number_text
sql-tokens = refl

tokenize_sql-EndsInEof_example : EndsInEof sql_tokens
tokenize_sql-EndsInEof_example = tokenize_sql-EndsInEof sql sql_tokens sql-tokens

tokenize_loop_fuel_example : tokenize_loop 40 sql ≡ tokenize_loop 50 sql
tokenize_loop_fuel_example = tokenize_loop_fuel 40 50 sql (omega arith) (omega arith)

abbrev insertion : Statement
insertion = insert_stmt (record {
  table_name = codes "t";
  columns = codes "a" ∷ codes "b" ∷ [];
  values =
      record { type = value_string; text = text }
      ∷ record { type = value_number; text = codes "7" }
      ∷ [];
})

abbrev query : Statement
query = select_stmt (record {
  table_name = codes "t";
  select_all = false;
  columns = codes "a" ∷ [];
  where_clause = some (record {
    column_name = codes "b";
    value = record { type = value_number; text = codes "7" };
  });
})
