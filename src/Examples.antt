-- ===== src/Examples.antt =====
-- Runs of the model on small inputs, with a concrete signature scheme in place of Ed25519.
pub mod Setup
mod Issuing
mod Serving
mod Pulling
mod Renewing
mod Syncing
mod Memberships
mod Policies
mod Signing
mod Reconciling
mod Filtering
mod Naming
mod Enrolling
mod Watching
mod Joining
mod Reading
mod Daemon
mod Segmenting
mod Enforcing
mod Printing
