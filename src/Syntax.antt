-- ===== src/Syntax.antt =====
-- src/stacky.hh: tokens, operations and words, the data that every stage of the compiler shares.
mod Kinds
mod Records
pub use Kinds.*
unfoldable pub use Records.*
