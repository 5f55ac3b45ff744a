-- ===== src/Packet/Defs.antt =====
-- lang/python/frenetic/packet.py: the attributes of a packet, and the protocol headers of the
-- library ryu, which takes frames apart and puts them together.
use frenetic.Base.{ℕ, List, [], Option, none, some}
use frenetic.Base.Text.{Text}

-- A header of the list `protocols`. `unknown` is a header of any other name, with its contents;
-- `raw` is the undecoded rest of a frame, a string that has no attribute `protocol_name`.
pub data Protocol : Type 0 where
  ethernet : (src dst : Text) (ethertype : ℕ) → Protocol
  vlan : (vid pcp ethertype : ℕ) → Protocol
  ipv4 : (src dst : Text) (proto : ℕ) → Protocol
  tcp : (src_port dst_port : ℕ) → Protocol
  udp : (src_port dst_port : ℕ) → Protocol
  arp : (opcode : ℕ) (src_ip dst_ip src_mac dst_mac : Text) → Protocol
  unknown : (name contents : Text) → Protocol
  raw : Text → Protocol

-- An attribute that is None is absent.
pub record Packet : Type 0 where
  pub switch : Option ℕ
  pub port : Option ℕ
  pub eth_src : Option Text
  pub eth_dst : Option Text
  pub eth_type : Option ℕ
  pub vlan : Option ℕ
  pub vlan_pcp : Option ℕ
  pub ip4_src : Option Text
  pub ip4_dst : Option Text
  pub ip_proto : Option ℕ
  pub tcp_src_port : Option ℕ
  pub tcp_dst_port : Option ℕ
  pub unknown_headers : List Protocol

-- Packet(dpid, port_id)
abbrev pub empty : ℕ → ℕ → Packet
empty dpid port_id = record {
  switch = some dpid;
  port = some port_id;
  eth_src = none;
  eth_dst = none;
  eth_type = none;
  vlan = none;
  vlan_pcp = none;
  ip4_src = none;
  ip4_dst = none;
  ip_proto = none;
  tcp_src_port = none;
  tcp_dst_port = none;
  unknown_headers = [];
}
