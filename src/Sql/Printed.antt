-- ===== src/Sql/Printed.antt =====
-- Statements as tokens, and the lists that src/parser.c reads back from them.
use bptree_sql_engine.Prelude.{
  ◌≡◌, refl, Bool, true, false, Option, none, some, List, [], ◌∷◌, ◌++◌, Bytes, codes, ok,
}
use bptree_sql_engine.Sql.Ast.{
  ValueType, value_string, value_number, LiteralValue, WhereClause, Statement, insert_stmt,
  select_stmt,
}
use bptree_sql_engine.Sql.Lexer.{
  TokenType, token_identifier, token_string, token_number, token_comma, token_lparen, token_rparen,
  token_semicolon, token_star, token_insert, token_into, token_values, token_select, token_from,
  token_where, token_equal, Token,
}
use bptree_sql_engine.Sql.Parser.{
  ParseError, Parse, has_type, expected_identifier, expected_literal, parse_identifier,
  parse_literal, more_items, parse_identifier_list, parse_literal_list,
}

-- The texts of the keywords and symbols; the other types have none of their own.
abbrev pub spelling : TokenType → Bytes
spelling token_comma = codes ","
spelling token_lparen = codes "("
spelling token_rparen = codes ")"
spelling token_semicolon = codes ";"
spelling token_star = codes "*"
spelling token_equal = codes "="
spelling token_insert = codes "INSERT"
spelling token_into = codes "INTO"
spelling token_values = codes "VALUES"
spelling token_select = codes "SELECT"
spelling token_from = codes "FROM"
spelling token_where = codes "WHERE"
spelling _ = []

-- A keyword or a symbol.
abbrev pub mark : TokenType → Token
mark type = record { type = type; text = spelling type }

abbrev pub name_token : Bytes → Token
name_token name = record { type = token_identifier; text = name }

abbrev literal_type : ValueType → TokenType
literal_type value_string = token_string
literal_type value_number = token_number

abbrev pub literal_token : LiteralValue → Token
literal_token value = record { type = literal_type value.type; text = value.text }

-- Items with commas between them.
module _ {A : Type 0} (show : A → Token) where
  abbrev pub later_tokens : List A → List Token
  later_tokens [] = []
  later_tokens (a ∷ rest) = mark token_comma ∷ show a ∷ later_tokens rest

  abbrev pub list_tokens : List A → List Token
  list_tokens [] = []
  list_tokens (a ∷ rest) = show a ∷ later_tokens rest

  more_items-later :
      (item : List Token → Parse A) (missing : ParseError) (items : List A) (token : Token)
      (rest : List Token)
      → ((a : A) (tokens : List Token) → item (show a ∷ tokens) ≡ ok (a, tokens))
      → has_type token token_comma ≡ false
      → more_items item missing (later_tokens items ++ token ∷ rest) ≡ ok (items, token ∷ rest)
  unfolding more_items
  more_items-later item missing [] token [] h e = rw e refl
  more_items-later item missing [] token (t ∷ rest) h e = rw (more_items, e) refl
  more_items-later item missing (a ∷ items) token rest h e =
      rw (h a [], more_items, more_items-later item missing items token rest h e) refl

parse_identifier-name :
    (name : Bytes) (tokens : List Token)
    → parse_identifier (name_token name ∷ tokens) ≡ ok (name, tokens)
unfolding parse_identifier
parse_identifier-name name tokens = refl

pub parse_literal-value :
    (value : LiteralValue) (tokens : List Token)
    → parse_literal (literal_token value ∷ tokens) ≡ ok (value, tokens)
unfolding parse_literal
parse_literal-value value tokens =
    elim value.type
      as (λ type.
        parse_literal (record { type = literal_type type; text = value.text } ∷ tokens)
        ≡ ok (record { type = type; text = value.text }, tokens)) [
          | value_string ↦ refl
          | value_number ↦ refl
        ]

pub parse_identifier_list-tokens :
    (name : Bytes) (names : List Bytes) (token : Token) (rest : List Token)
    → has_type token token_comma ≡ false
    → parse_identifier_list (list_tokens name_token (name ∷ names) ++ token ∷ rest)
      ≡ ok (name ∷ names, token ∷ rest)
unfolding parse_identifier_list
parse_identifier_list-tokens name names token rest e =
    rw
      (
        parse_identifier-name name (later_tokens name_token names ++ token ∷ rest),
        more_items-later name_token parse_identifier expected_identifier names token rest
            parse_identifier-name e,
      )
      refl

pub parse_literal_list-tokens :
    (value : LiteralValue) (values : List LiteralValue) (token : Token) (rest : List Token)
    → has_type token token_comma ≡ false
    → parse_literal_list (list_tokens literal_token (value ∷ values) ++ token ∷ rest)
      ≡ ok (value ∷ values, token ∷ rest)
unfolding parse_literal_list
parse_literal_list-tokens value values token rest e =
    rw
      (
        parse_literal-value value (later_tokens literal_token values ++ token ∷ rest),
        more_items-later literal_token parse_literal expected_literal values token rest
            parse_literal-value e,
      )
      refl

abbrev pub column_tokens : List Bytes → List Token
column_tokens [] = []
column_tokens (name ∷ names) =
    mark token_lparen ∷ (list_tokens name_token (name ∷ names) ++ mark token_rparen ∷ [])

abbrev pub clause_tokens : Option WhereClause → List Token
clause_tokens none = []
clause_tokens (some clause) =
    mark token_where
    ∷ name_token clause.column_name
    ∷ mark token_equal
    ∷ literal_token clause.value
    ∷ []

abbrev pub projection_tokens : Bool → List Bytes → List Token
projection_tokens true columns = mark token_star ∷ []
projection_tokens false columns = list_tokens name_token columns

-- A statement as tokens, without the semicolon.
abbrev pub statement_tokens : Statement → List Token
statement_tokens (insert_stmt stmt) =
    mark token_insert
    ∷ mark token_into
    ∷ name_token stmt.table_name
    ∷ (column_tokens stmt.columns
        ++ mark token_values
          ∷ mark token_lparen
          ∷ (list_tokens literal_token stmt.values ++ mark token_rparen ∷ []))
statement_tokens (select_stmt stmt) =
    mark token_select
    ∷ (projection_tokens stmt.select_all stmt.columns
        ++ mark token_from ∷ name_token stmt.table_name ∷ clause_tokens stmt.where_clause)
