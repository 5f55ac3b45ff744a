-- ===== src/Packet.antt =====
-- lang/python/frenetic/packet.py: the class Packet.
pub mod Defs
pub mod Decode
pub mod Match
pub mod Encode
pub mod Semantics
pub mod Roundtrip
