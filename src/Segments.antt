-- ===== src/Segments.antt =====
-- The connected segments that `gw watch` reports, status.py.
pub mod Forest
pub mod Find
pub mod Analysis
pub mod Links
pub mod Groups
pub mod Components
