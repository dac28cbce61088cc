-- ===== src/Server.antt =====
-- The anchor's control plane, server.py, with the offers of anchorfile.py that it serves.
pub mod Guard
pub mod Offer
pub mod Defs
pub mod Cert
pub mod Replay
pub mod Safety
pub mod Run
pub mod Sans
