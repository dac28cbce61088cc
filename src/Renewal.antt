-- ===== src/Renewal.antt =====
-- The renewal loop of a node, renewal.py.
pub mod Schedule
pub mod Defs
pub mod Laws
pub mod Landing
