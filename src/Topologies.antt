-- ===== src/Topologies.antt =====
-- topology/scripts: the scripts that write networks in the dot notation.
pub mod Graph
pub mod Loops
pub mod Fattree
pub mod Tree
pub mod Digraph
