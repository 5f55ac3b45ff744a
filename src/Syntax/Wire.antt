-- ===== src/Syntax/Wire.antt =====
-- What the controller reads of a policy that lang/python/frenetic/syntax.py prints.
pub mod Lower
pub mod Header
pub mod Parse
pub mod Keeps
pub mod Agreement
