-- ===== src/PacketOut.antt =====
-- lang/python/frenetic/syntax.py: the payloads and the class PacketOut.
pub mod Defs
pub mod Scrub
