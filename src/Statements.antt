-- ===== src/Statements.antt =====
-- statements.py: the replicated log of CA-signed membership decisions. The lock of the class makes
-- each method one step.
pub mod Defs
pub mod Merge
pub mod Lifetime
pub mod Drop
