-- ===== src/Apps/LoadBalancer.antt =====
-- lang/python/frenetic/examples/load_balancer.py
pub mod Defs
pub mod Rotation
