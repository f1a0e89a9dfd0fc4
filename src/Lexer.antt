-- ===== src/Lexer.antt =====
-- src/lexer.cc: tokens, keywords and integer literals.
pub mod Integer
pub mod Tokens
