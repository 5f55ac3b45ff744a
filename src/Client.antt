-- ===== src/Client.antt =====
-- lang/python/frenetic/__init__.py: the class App.
pub mod Loop
pub mod Life
pub mod Methods
pub mod Requests
