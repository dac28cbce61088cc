-- ===== src/Ca.antt =====
-- ca.py: what a holder of the anchor file does, issuing and renewing credentials and minting the
-- statements that revoke, forget and re-cap.
pub mod Defs
pub mod Methods
pub mod Issue
pub mod Names
pub mod Holding
pub mod Exclusive
pub mod Lifetime
pub mod Revoked
pub mod Renew
pub mod Forget
