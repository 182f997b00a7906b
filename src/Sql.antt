-- ===== src/Sql.antt =====
-- src/coordinator/parser.cpp: tokens (Token), the tokenizer (Lexer, with what is shown of it in Lexed).
pub mod Token
pub mod Lexer
pub mod Rounds
pub mod Lexed
pub mod Syntax
pub mod Cursor
pub mod Parser
pub mod Statement
pub mod Loops
pub mod Quoted
pub mod Catalog
pub mod Tables
