-- ===== src/Apps/Small.antt =====
-- lang/python/frenetic/examples/packet_in_out.py, silly.py, pipe.py and port_count.py
pub mod Send
pub mod PacketInOut
pub mod Silly
pub mod Pipe
pub mod PortCount
