-- ===== src/Apps.antt =====
-- lang/python/frenetic/examples: the controller applications.
pub mod LoadBalancer
pub mod Forwarding
pub mod Firewall
pub mod Learning
pub mod Flood
pub mod Repeater
pub mod Small
