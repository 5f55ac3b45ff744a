-- ===== src/Discovery.antt =====
-- lang/python/frenetic/examples/discovery
pub mod Graph
pub mod State
pub mod Symmetry
pub mod History
pub mod Edge
pub mod Probe
pub mod Topology
pub mod PacketIn
pub mod Weights
pub mod Routing
pub mod Paths
pub mod Delivery
