-- ===== src/Discovery/Graph.antt =====
-- The library networkx, as lang/python/frenetic/examples/discovery uses it.
mod Defs
pub mod Lists
unfoldable pub use Defs.*
