-- ===== src/Discovery/Weights.antt =====
-- lang/python/frenetic/examples/discovery/topology.py: the counts and the weight of a link.
pub mod Defs
pub mod Window
pub mod Round
pub mod Counting
pub mod Refresh
