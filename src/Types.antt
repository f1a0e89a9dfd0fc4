-- ===== src/Types.antt =====
-- src/types.cc: the type checker. The top of a stack of types is the head of its list, in effects
-- too; `effect` takes them in the source's order.
pub mod Names
pub mod Effects
pub mod Check
