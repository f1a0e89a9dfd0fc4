-- ===== src/Parser.antt =====
-- src/parser.cc: from tokens to operations.
pub mod Crossreference
pub mod Stringlike
pub mod Translate
pub mod Extract
pub mod Definitions
pub mod Intrinsics
pub mod Nesting
pub mod Functions
