-- ===== src/Apps/Flood.antt =====
-- lang/python/frenetic/examples/flood_switch.py
pub mod Policy
pub mod Sends
