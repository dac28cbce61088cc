-- ===== src/Host.antt =====
-- What the commands decide about the host they run on: its ports and its firewall.
pub mod Ports
pub mod Firewall
pub mod Checks
