-- ===== src/Upgrade.antt =====
-- The fleet's upgrades, upgrade.py.
pub mod Version
pub mod Manager
pub mod Laws
