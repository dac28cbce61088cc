-- ===== src/PortFilter.antt =====
-- portfilter.py: which inbound flows the nftables ruleset of a node lets through, its text, and how the
-- node keeps it in the kernel.
pub mod Defs
pub mod Laws
pub mod Render
pub mod Filter
pub mod Keeping
pub mod Order
pub mod Alike
pub mod Rendering
