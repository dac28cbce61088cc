-- ===== src/Hosts.antt =====
-- hosts.py: the names under which the overlay addresses stand in the hosts file, and the block of the
-- file that the program keeps.
pub mod Label
pub mod Names
pub mod Lines
pub mod Block
pub mod Stripping
pub mod Markers
pub mod Again
pub mod Survival
