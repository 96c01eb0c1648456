-- ===== src/Sql/TokenName.antt =====
-- The names of the types of tokens, from `token_type_name` of src/lexer.c.
use bptree_sql_engine.Prelude.{Bytes, codes}
use bptree_sql_engine.Sql.Lexer.{
  TokenType, token_eof, token_identifier, token_string, token_number, token_comma, token_lparen,
  token_rparen, token_semicolon, token_star, token_insert, token_into, token_values, token_select,
  token_from, token_where, token_equal,
}

unfoldable token_type_name : TokenType → Bytes
token_type_name token_eof = codes "TOKEN_EOF"
token_type_name token_identifier = codes "TOKEN_IDENTIFIER"
token_type_name token_string = codes "TOKEN_STRING"
token_type_name token_number = codes "TOKEN_NUMBER"
token_type_name token_comma = codes "TOKEN_COMMA"
token_type_name token_lparen = codes "TOKEN_LPAREN"
token_type_name token_rparen = codes "TOKEN_RPAREN"
token_type_name token_semicolon = codes "TOKEN_SEMICOLON"
token_type_name token_star = codes "TOKEN_STAR"
token_type_name token_insert = codes "TOKEN_INSERT"
token_type_name token_into = codes "TOKEN_INTO"
token_type_name token_values = codes "TOKEN_VALUES"
token_type_name token_select = codes "TOKEN_SELECT"
token_type_name token_from = codes "TOKEN_FROM"
token_type_name token_where = codes "TOKEN_WHERE"
token_type_name token_equal = codes "TOKEN_EQUAL"
