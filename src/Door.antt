-- ===== src/Door.antt =====
-- The join token of the door, door.py.
pub mod Slices
pub mod Menu
pub mod Token
pub mod Decode
pub mod Payload
pub mod RoundTrip
