-- ===== src/Messages.antt =====
-- The messages between the client and the controller, other than policies.
pub mod Defs
pub mod Controller
pub mod Dispatch
pub mod Events
pub mod Out
