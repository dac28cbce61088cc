-- ===== src/Policy.antt =====
-- policy.py: roles, grants, and the tunnel topology that they derive.
pub mod Tags
pub mod Peering
pub mod Delta
pub mod Adoption
pub mod Signer
