-- ===== src/Sync.antt =====
-- The sync loop of a node, sync.py.
pub mod Defs
pub mod Pull
pub mod Laws
pub mod Effects
