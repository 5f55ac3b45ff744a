-- ===== src/NetUtils.antt =====
-- lang/python/frenetic/net_utils.py: addresses as texts and numbers, networks and hosts.
pub mod Defs
pub mod Address
pub mod Network
