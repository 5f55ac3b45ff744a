-- ===== src/Apps/Repeater.antt =====
-- lang/python/frenetic/examples/repeater.py
pub mod State
pub mod Sends
pub mod Valid
pub mod Live
pub mod Printed
