-- ===== src/Wire.antt =====
-- wire.py: the signed objects that constitute the protocol.
pub mod Json
pub mod Time
pub mod Crypto
pub mod Credential
pub mod Record
pub mod Statement
pub mod Grants
pub mod Verify
pub mod Requests
pub mod Decode
pub mod Sorting
pub mod Reading
