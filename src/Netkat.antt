-- ===== src/Netkat.antt =====
-- The controller's side of the wire: its policies (lib/Frenetic_NetKAT.ml), their meaning
-- (lib/Frenetic_NetKAT_Semantics.ml) and the JSON reader (lib/Frenetic_NetKAT_Json.ml).
pub mod Ast
pub mod Eval
pub mod Smart
pub mod Address
pub mod Read
pub mod Laws
