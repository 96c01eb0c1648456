-- ===== src/Sql/ParserLaws.antt =====
-- The parser reads back what is printed as tokens.
use bptree_sql_engine.Prelude.{
  ◌≡◌, ◌≢◌, refl, ap, ◌∙◌, Bool, true, false, Option, none, some, List, [], ◌∷◌, ◌++◌, append_assoc,
  Bytes, ok,
}
use bptree_sql_engine.Sql.Ast.{LiteralValue, WhereClause, Statement, insert_stmt, select_stmt}
use bptree_sql_engine.Sql.Lexer.{
  token_lparen, token_rparen, token_semicolon, token_into, token_values, token_from, Token, eof,
}
use bptree_sql_engine.Sql.Parser.{
  parser_match, parser_expect_with_message, parser_skip_semicolons, parse_identifier, parse_columns,
  parse_where_clause, parse_insert, parse_select, terminated, parse_next_statement, parse_statement,
}
use bptree_sql_engine.Sql.Printed.{
  mark, name_token, literal_token, list_tokens, parse_literal-value, parse_identifier_list-tokens,
  parse_literal_list-tokens, column_tokens, clause_tokens, projection_tokens, statement_tokens,
}

-- The statements that the syntax can express: an INSERT has a value, and a SELECT has either `*` or
-- a column.
abbrev pub IsProjection : Bool → List Bytes → Type 0
IsProjection true columns = columns ≡ []
IsProjection false columns = columns ≢ []

abbrev pub IsStatement : Statement → Type 0
IsStatement (insert_stmt stmt) = stmt.values ≢ []
IsStatement (select_stmt stmt) = IsProjection stmt.select_all stmt.columns

parse_columns-tokens :
    (name : Bytes) (names : List Bytes) (rest : List Token)
    → parse_columns ((list_tokens name_token (name ∷ names) ++ mark token_rparen ∷ []) ++ rest)
      ≡ ok (name ∷ names, rest)
unfolding parser_expect_with_message parser_match
parse_columns-tokens name names rest =
    ap parse_columns
      (append_assoc (list_tokens name_token (name ∷ names)) (mark token_rparen ∷ []) rest)
    ∙ rw (parse_identifier_list-tokens name names (mark token_rparen) rest refl) refl

parse_insert-tokens :
    (table_name : Bytes) (columns : List Bytes) (values : List LiteralValue) (rest : List Token)
    → values ≢ []
    → parse_insert (
        mark token_into
        ∷ name_token table_name
        ∷ (column_tokens columns
            ++ mark token_values
              ∷ mark token_lparen
              ∷ (list_tokens literal_token values ++ mark token_rparen ∷ rest)))
      ≡ ok (
        insert_stmt (record { table_name = table_name; columns = columns; values = values }),
        rest,
      )
unfolding parse_insert parser_expect_with_message parser_match parse_identifier
parse_insert-tokens table_name columns [] rest h = absurd (h refl)
parse_insert-tokens table_name [] (value ∷ values) rest h =
    rw (parse_literal_list-tokens value values (mark token_rparen) rest refl) refl
parse_insert-tokens table_name (column ∷ columns) (value ∷ values) rest h =
    rw
      (
        parse_columns-tokens column columns (
            mark token_values
            ∷ mark token_lparen
            ∷ (list_tokens literal_token (value ∷ values) ++ mark token_rparen ∷ rest)),
        parse_literal_list-tokens value values (mark token_rparen) rest refl,
      )
      refl

parse_where-tokens :
    (clause : Option WhereClause) (rest : List Token)
    → parse_where_clause (clause_tokens clause ++ mark token_semicolon ∷ rest)
      ≡ ok (clause, mark token_semicolon ∷ rest)
unfolding parse_where_clause parser_match parser_expect_with_message parse_identifier
parse_where-tokens none rest = refl
parse_where-tokens (some clause) rest =
    rw (parse_literal-value clause.value (mark token_semicolon ∷ rest)) refl

parse_select-tokens :
    (table_name : Bytes) (select_all : Bool) (columns : List Bytes) (clause : Option WhereClause)
    (rest : List Token)
    → IsProjection select_all columns
    → parse_select (
        projection_tokens select_all columns
        ++ mark token_from
          ∷ name_token table_name
          ∷ (clause_tokens clause ++ mark token_semicolon ∷ rest))
      ≡ ok (
        select_stmt (record {
          table_name = table_name;
          select_all = select_all;
          columns = columns;
          where_clause = clause;
        }),
        mark token_semicolon ∷ rest,
      )
unfolding parse_select parser_match parser_expect_with_message parse_identifier
parse_select-tokens table_name true columns clause rest h =
    rw (parse_where-tokens clause rest, h) refl
parse_select-tokens table_name false [] clause rest h = absurd (h refl)
parse_select-tokens table_name false (name ∷ names) clause rest h =
    rw
      (
        parse_identifier_list-tokens name names (mark token_from)
            (name_token table_name ∷ (clause_tokens clause ++ mark token_semicolon ∷ rest)) refl,
        parse_where-tokens clause rest,
      )
      refl

-- A statement that the syntax can express is read back from its tokens: behind them and a semicolon
-- the parser stands at the tokens that follow, whatever they are.
pub parse_next-tokens :
    (stmt : Statement) (rest : List Token)
    → IsStatement stmt
    → parse_next_statement (statement_tokens stmt ++ mark token_semicolon ∷ rest) ≡ ok (stmt, rest)
unfolding parse_next_statement parser_skip_semicolons parser_match
parse_next-tokens (insert_stmt stmt) rest h =
    let values = list_tokens literal_token stmt.values in
    let columns = column_tokens stmt.columns in
    ap (λ l. terminated (parse_insert (mark token_into ∷ name_token stmt.table_name ∷ l)))
      (append_assoc columns
          (mark token_values ∷ mark token_lparen ∷ (values ++ mark token_rparen ∷ [])) _
        ∙ ap (λ l. columns ++ mark token_values ∷ mark token_lparen ∷ l)
            (append_assoc values (mark token_rparen ∷ []) (mark token_semicolon ∷ rest)))
    ∙ ap terminated (
        parse_insert-tokens stmt.table_name stmt.columns stmt.values (mark token_semicolon ∷ rest)
          h)
parse_next-tokens (select_stmt stmt) rest h =
    ap (λ l. terminated (parse_select l))
      (append_assoc (projection_tokens stmt.select_all stmt.columns)
        (mark token_from ∷ name_token stmt.table_name ∷ clause_tokens stmt.where_clause)
        (mark token_semicolon ∷ rest))
    ∙ ap terminated
        (parse_select-tokens stmt.table_name stmt.select_all stmt.columns stmt.where_clause rest h)

-- A text of one statement, closed with a semicolon and the end, is read back as this statement.
pub parse_statement-tokens :
    (stmt : Statement)
    → IsStatement stmt
    → parse_statement (statement_tokens stmt ++ mark token_semicolon ∷ eof ∷ []) ≡ ok stmt
unfolding parse_statement parser_skip_semicolons
parse_statement-tokens stmt h = rw (parse_next-tokens stmt (eof ∷ []) h) refl
