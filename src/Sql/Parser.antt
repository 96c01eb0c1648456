-- ===== src/Sql/Parser.antt =====
-- src/parser.c.
--
-- The parser's state, the token array with the index `current`, is the list of the tokens from this
-- index on. The array ends with an EOF token, which the parser never goes past.
use bptree_sql_engine.Prelude.{
  ℕ, Bool, true, false, Option, none, some, List, [], ◌∷◌, ◌==◌, if◌then◌else◌, Bytes, Result, ok,
  err, ◌>>=◌,
}
use bptree_sql_engine.Sql.Ast.{
  value_string, value_number, LiteralValue, WhereClause, Statement, insert_stmt, select_stmt,
}
use bptree_sql_engine.Sql.Lexer.{
  TokenType, token_eof, token_identifier, token_string, token_number, token_comma, token_lparen,
  token_rparen, token_semicolon, token_star, token_insert, token_into, token_values, token_select,
  token_from, token_where, token_equal, Token,
}

pub data ParseError : Type 0 where
  expected_identifier expected_literal no_more_statements unsupported_statement : ParseError
  trailing_tokens : ParseError
  expected : TokenType → ParseError

abbrev pub Parse : Type 0 → Type 0
Parse A = Result ParseError (A × List Token)

-- The numbers of the enumerators.
abbrev pub number_of : TokenType → ℕ
number_of token_eof = 0
number_of token_identifier = 1
number_of token_string = 2
number_of token_number = 3
number_of token_comma = 4
number_of token_lparen = 5
number_of token_rparen = 6
number_of token_semicolon = 7
number_of token_star = 8
number_of token_insert = 9
number_of token_into = 10
number_of token_values = 11
number_of token_select = 12
number_of token_from = 13
number_of token_where = 14
number_of token_equal = 15

abbrev pub has_type : Token → TokenType → Bool
has_type token type = number_of token.type == number_of type

-- The type of `parser_peek`.
unfoldable pub parser_peek : List Token → TokenType
parser_peek [] = token_eof
parser_peek (token ∷ tokens) = token.type

-- The tokens behind the next one, if that has the type. It is never called with EOF, the only token
-- that `parser_advance` does not move past.
unfoldable pub parser_match : List Token → TokenType → Option (List Token)
parser_match [] type = none
parser_match (token ∷ tokens) type = if has_type token type then some tokens else none

unfoldable pub parser_skip_semicolons : List Token → List Token
parser_skip_semicolons [] = []
parser_skip_semicolons (token ∷ tokens) =
    if has_type token token_semicolon then parser_skip_semicolons tokens else token ∷ tokens

abbrev pub or_error : ParseError → Option (List Token) → Result ParseError (List Token)
or_error e none = err e
or_error e (some tokens) = ok tokens

unfoldable pub parser_expect_with_message : List Token → TokenType → Result ParseError (List Token)
parser_expect_with_message tokens type = or_error (expected type) (parser_match tokens type)

unfoldable pub parse_identifier : List Token → Parse Bytes
parse_identifier [] = err expected_identifier
parse_identifier (token ∷ tokens) =
    if has_type token token_identifier then ok (token.text, tokens) else err expected_identifier

unfoldable pub parse_literal : List Token → Parse LiteralValue
parse_literal [] = err expected_literal
parse_literal (token ∷ tokens) =
    if has_type token token_string
    then ok (record { type = value_string; text = token.text }, tokens)
    else if has_type token token_number
    then ok (record { type = value_number; text = token.text }, tokens)
    else err expected_literal

abbrev pub cons_parsed : {A : Type 0} → A → Parse (List A) → Parse (List A)
cons_parsed a (err e) = err e
cons_parsed a (ok (rest, tokens)) = ok (a ∷ rest, tokens)

-- The `while` over the commas: a comma, and behind it an item of the list, which is one token.
unfoldable pub more_items :
    {A : Type 0} → (List Token → Parse A) → ParseError → List Token → Parse (List A)
more_items item missing [] = ok ([], [])
more_items item missing (comma ∷ []) =
    if has_type comma token_comma then err missing else ok ([], comma ∷ [])
more_items item missing (comma ∷ token ∷ tokens) = elim (has_type comma token_comma) [
  | true ↦ elim (item (token ∷ [])) [
    | ok (a, _) ↦ cons_parsed a (more_items item missing tokens)
    | err e ↦ err e
  ]
  | false ↦ ok ([], comma ∷ token ∷ tokens)
]

unfoldable pub parse_identifier_list : List Token → Parse (List Bytes)
parse_identifier_list tokens = do
  (name, tokens') ← parse_identifier tokens
  cons_parsed name (more_items parse_identifier expected_identifier tokens')

unfoldable pub parse_literal_list : List Token → Parse (List LiteralValue)
parse_literal_list tokens = do
  (literal, tokens') ← parse_literal tokens
  cons_parsed literal (more_items parse_literal expected_literal tokens')

abbrev pub parse_condition : List Token → Parse (Option WhereClause)
parse_condition tokens = do
  (column, tokens1) ← parse_identifier tokens
  tokens2 ← parser_expect_with_message tokens1 token_equal
  (value, tokens3) ← parse_literal tokens2
  ok (some (record { column_name = column; value = value }), tokens3)

abbrev pub where_behind : List Token → Option (List Token) → Parse (Option WhereClause)
where_behind tokens none = ok (none, tokens)
where_behind tokens (some tokens') = parse_condition tokens'

unfoldable pub parse_where_clause : List Token → Parse (Option WhereClause)
parse_where_clause tokens = where_behind tokens (parser_match tokens token_where)

abbrev pub parse_columns : List Token → Parse (List Bytes)
parse_columns tokens = do
  (columns, tokens1) ← parse_identifier_list tokens
  tokens2 ← parser_expect_with_message tokens1 token_rparen
  ok (columns, tokens2)

abbrev pub columns_behind : List Token → Option (List Token) → Parse (List Bytes)
columns_behind tokens none = ok ([], tokens)
columns_behind tokens (some tokens') = parse_columns tokens'

unfoldable pub parse_insert : List Token → Parse Statement
parse_insert tokens = do
  tokens1 ← parser_expect_with_message tokens token_into
  (table_name, tokens2) ← parse_identifier tokens1
  (columns, tokens3) ← columns_behind tokens2 (parser_match tokens2 token_lparen)
  tokens4 ← parser_expect_with_message tokens3 token_values
  tokens5 ← parser_expect_with_message tokens4 token_lparen
  (values, tokens6) ← parse_literal_list tokens5
  tokens7 ← parser_expect_with_message tokens6 token_rparen
  ok (insert_stmt (record { table_name = table_name; columns = columns; values = values }), tokens7)

-- `select_all` and the columns.
abbrev pub projection_behind : List Token → Option (List Token) → Parse (Bool × List Bytes)
projection_behind tokens (some tokens') = ok ((true, []), tokens')
projection_behind tokens none = do
  (columns, tokens') ← parse_identifier_list tokens
  ok ((false, columns), tokens')

unfoldable pub parse_select : List Token → Parse Statement
parse_select tokens = do
  ((select_all, columns), tokens1) ← projection_behind tokens (parser_match tokens token_star)
  tokens2 ← parser_expect_with_message tokens1 token_from
  (table_name, tokens3) ← parse_identifier tokens2
  (clause, tokens4) ← parse_where_clause tokens3
  ok (
    select_stmt (record {
      table_name = table_name;
      select_all = select_all;
      columns = columns;
      where_clause = clause;
    }),
    tokens4,
  )

abbrev pub skip_one : List Token → Option (List Token) → List Token
skip_one tokens none = tokens
skip_one tokens (some tokens') = tokens'

-- The terminator of a statement is optional.
abbrev pub terminated : Parse Statement → Parse Statement
terminated (err e) = err e
terminated (ok (stmt, tokens)) = ok (stmt, skip_one tokens (parser_match tokens token_semicolon))

abbrev pub statement_at : List Token → Parse Statement
statement_at [] = err no_more_statements
statement_at (token ∷ tokens) =
    if has_type token token_eof
    then err no_more_statements
    else if has_type token token_insert
    then terminated (parse_insert tokens)
    else if has_type token token_select
    then terminated (parse_select tokens)
    else err unsupported_statement

-- Where it fails the run ends, and the cursor is not read again.
unfoldable pub parse_next_statement : List Token → Parse Statement
parse_next_statement tokens = statement_at (parser_skip_semicolons tokens)

abbrev pub at_end : Statement → List Token → Result ParseError Statement
at_end stmt [] = err trailing_tokens
at_end stmt (token ∷ tokens) = if has_type token token_eof then ok stmt else err trailing_tokens

unfoldable pub parse_statement : List Token → Result ParseError Statement
parse_statement tokens = do
  (stmt, tokens') ← parse_next_statement tokens
  at_end stmt (parser_skip_semicolons tokens')
