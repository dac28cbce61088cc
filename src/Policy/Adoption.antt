-- ===== src/Policy/Adoption.antt =====
-- `GrantPolicy` of policy.py: the table that a node holds, and how a newer one replaces it.
pub mod Defs
pub mod Laws
