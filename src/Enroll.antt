-- ===== src/Enroll.antt =====
-- The enrollment of a joiner through the door, enroll.py.
pub mod Defs
pub mod Window
pub mod Laws
pub mod Watcher
pub mod Watching
