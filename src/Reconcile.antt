-- ===== src/Reconcile.antt =====
-- reconcile.py: one pass that makes the WireGuard peers of the host those that the directory authorizes.
pub mod Tracker
pub mod Diff
pub mod Pass
pub mod Exact
