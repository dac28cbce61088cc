-- ===== src/Directory.antt =====
-- directory.py: the directory of node records that every node holds. The lock of the class makes
-- each method one step, so that a method is a function from state to state here.
pub mod Defs
pub mod Merge
pub mod Prune
