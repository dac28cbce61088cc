-- ===== src/Loops.antt =====
-- The loops of the daemon beside sync, renewal and reconciliation: loop.py, endpoints.py, sweep.py, and
-- the publication of the live links in reconcile.py.
pub mod Ticks
pub mod Publish
