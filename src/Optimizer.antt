-- ===== src/Optimizer.antt =====
-- src/optimizer.cc: the passes over operations.
pub mod Signed
pub mod Folding
pub mod Unused
pub mod Conditions
pub mod Passes
