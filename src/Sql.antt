-- ===== src/Sql.antt =====
-- The SQL front end, src/lexer.c and src/parser.c.
pub mod Ast
pub mod Lexer
pub mod TokenName
pub mod Parser
pub mod Printed
pub mod Lexed
pub mod SqlText
pub mod ParserLaws
pub mod ListProgress
pub mod ParserProgress
pub mod FromTokens
pub mod StatementValues
pub mod TokenBytes
pub mod Literals
pub mod LexerProgress
pub mod LexerLaws
pub mod Examples
