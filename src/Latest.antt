-- ===== src/Latest.antt =====
-- The merge rule that the directory (directory.py), the statement log (statements.py) and the
-- attestation log (attest.py) share, as an abstract specification: a map that keeps, under each key,
-- the offer with the highest rank, and the earlier of two with the same rank.
pub mod Defs
pub mod Winner
pub mod Laws
