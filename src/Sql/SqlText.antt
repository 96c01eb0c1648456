-- ===== src/Sql/SqlText.antt =====
-- Statements as SQL text, and the tokens that src/lexer.c reads from it.
use bptree_sql_engine.Prelude.{
  Bool, true, false, Option, none, some, List, [], ◌∷◌, ◌++◌, Bytes, All, All-append,
}
use bptree_sql_engine.Sql.Ast.{
  ValueType, value_string, value_number, LiteralValue, WhereClause, Statement, insert_stmt,
  select_stmt,
}
use bptree_sql_engine.Sql.Lexer.{
  token_rparen, token_semicolon, token_comma, token_lparen, token_star, token_insert, token_into,
  token_values, token_select, token_from, token_where, token_equal, Token,
}
use bptree_sql_engine.Sql.Printed.{
  mark, name_token, literal_token, later_tokens, list_tokens, column_tokens, clause_tokens,
  projection_tokens, statement_tokens,
}
use bptree_sql_engine.Sql.Lexed.{
  Lexes, IsIdentifier, name_token-Lexes, string-Lexes, mark-Lexes, IsNumber, number-Lexes,
  print_tokens,
}

-- A value of a statement: any text in quotes, or a number.
abbrev IsText : ValueType → Bytes → Type 0
IsText value_string text = Unit
IsText value_number text = IsNumber text

abbrev pub IsLiteral : LiteralValue → Type 0
IsLiteral value = IsText value.type value.text

abbrev pub IsClause : Option WhereClause → Type 0
IsClause none = Unit
IsClause (some clause) = IsIdentifier clause.column_name × IsLiteral clause.value

-- The names are identifiers, and the values are texts or numbers.
abbrev pub IsSql : Statement → Type 0
IsSql (insert_stmt stmt) =
    IsIdentifier stmt.table_name × All IsIdentifier stmt.columns × All IsLiteral stmt.values
IsSql (select_stmt stmt) =
    IsIdentifier stmt.table_name × All IsIdentifier stmt.columns × IsClause stmt.where_clause

-- The statements as tokens, with a semicolon behind each, and as text.
abbrev pub script_tokens : List Statement → List Token
script_tokens [] = []
script_tokens (stmt ∷ stmts) = statement_tokens stmt ++ mark token_semicolon ∷ script_tokens stmts

abbrev pub sql_text : List Statement → Bytes
sql_text stmts = print_tokens (script_tokens stmts)

literal_token-Lexes : (value : LiteralValue) → IsLiteral value → Lexes (literal_token value)
literal_token-Lexes value h = typed value.type value.text h
  where
    typed :
        (type : ValueType) (text : Bytes)
        → IsText type text
        → Lexes (literal_token (record { type = type; text = text }))
    typed value_string text h = string-Lexes text
    typed value_number text h = number-Lexes text h

module _ {A : Type 0} (show : A → Token) (P : A → Type 0)
    (lexes : (a : A) → P a → Lexes (show a)) where
  later_tokens-Lexes : (items : List A) → All P items → All Lexes (later_tokens show items)
  later_tokens-Lexes [] h = tt
  later_tokens-Lexes (a ∷ items) h =
      (mark-Lexes token_comma tt, (lexes a h.0, later_tokens-Lexes items h.1))

  list_tokens-Lexes : (items : List A) → All P items → All Lexes (list_tokens show items)
  list_tokens-Lexes [] h = tt
  list_tokens-Lexes (a ∷ items) h = (lexes a h.0, later_tokens-Lexes items h.1)

names-Lexes :
    (names : List Bytes) → All IsIdentifier names → All Lexes (list_tokens name_token names)
names-Lexes names h = list_tokens-Lexes name_token IsIdentifier name_token-Lexes names h

column_tokens-Lexes :
    (columns : List Bytes) → All IsIdentifier columns → All Lexes (column_tokens columns)
column_tokens-Lexes [] h = tt
column_tokens-Lexes (column ∷ columns) h = (
  mark-Lexes token_lparen tt,
  All-append Lexes (list_tokens name_token (column ∷ columns)) (mark token_rparen ∷ [])
      (names-Lexes (column ∷ columns) h) (mark-Lexes token_rparen tt, tt),
)

clause_tokens-Lexes :
    (clause : Option WhereClause) → IsClause clause → All Lexes (clause_tokens clause)
clause_tokens-Lexes none h = tt
clause_tokens-Lexes (some clause) h = (
  mark-Lexes token_where tt,
  (
    name_token-Lexes clause.column_name h.0,
    (mark-Lexes token_equal tt, (literal_token-Lexes clause.value h.1, tt)),
  ),
)

projection_tokens-Lexes :
    (select_all : Bool) (columns : List Bytes)
    → All IsIdentifier columns
    → All Lexes (projection_tokens select_all columns)
projection_tokens-Lexes true columns h = (mark-Lexes token_star tt, tt)
projection_tokens-Lexes false columns h = names-Lexes columns h

statement_tokens-Lexes : (stmt : Statement) → IsSql stmt → All Lexes (statement_tokens stmt)
statement_tokens-Lexes (insert_stmt stmt) (name, columns, values) =
    let closed : All Lexes (list_tokens literal_token stmt.values ++ mark token_rparen ∷ []) =
      All-append Lexes (list_tokens literal_token stmt.values) (mark token_rparen ∷ [])
        (list_tokens-Lexes literal_token IsLiteral literal_token-Lexes stmt.values values)
        (mark-Lexes token_rparen tt, tt) in
    (
      mark-Lexes token_insert tt,
      (
        mark-Lexes token_into tt,
        (
          name_token-Lexes stmt.table_name name,
          All-append Lexes (column_tokens stmt.columns) _ (column_tokens-Lexes stmt.columns columns)
              (mark-Lexes token_values tt, (mark-Lexes token_lparen tt, closed)),
        ),
      ),
    )
statement_tokens-Lexes (select_stmt stmt) (name, columns, clause) = (
  mark-Lexes token_select tt,
  All-append Lexes (projection_tokens stmt.select_all stmt.columns) _
      (projection_tokens-Lexes stmt.select_all stmt.columns columns)
      (
        mark-Lexes token_from tt,
        (name_token-Lexes stmt.table_name name, clause_tokens-Lexes stmt.where_clause clause),
      ),
)

pub script_tokens-Lexes :
    (stmts : List Statement) → All IsSql stmts → All Lexes (script_tokens stmts)
script_tokens-Lexes [] h = tt
script_tokens-Lexes (stmt ∷ stmts) h =
    All-append Lexes (statement_tokens stmt) (mark token_semicolon ∷ script_tokens stmts)
      (statement_tokens-Lexes stmt h.0)
      (mark-Lexes token_semicolon tt, script_tokens-Lexes stmts h.1)
