-- ===== src/Attest.antt =====
-- attest.py: the log of what nodes testify about each other's endpoints.
pub mod Defs
pub mod Laws
