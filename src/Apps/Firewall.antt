-- ===== src/Apps/Firewall.antt =====
-- lang/python/frenetic/examples/firewall.py
pub mod State
pub mod Policy
pub mod Handlers
pub mod Safety
pub mod Entries
pub mod History
pub mod Apart
pub mod Distinct
pub mod Cleaning
pub mod Sweep
