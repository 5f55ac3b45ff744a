-- ===== src/Apps/Learning.antt =====
-- lang/python/frenetic/examples/learning.py
pub mod Dict
pub mod State
pub mod Policy
pub mod Handlers
pub mod Keys
pub mod Again
