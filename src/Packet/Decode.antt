-- ===== src/Packet/Decode.antt =====
-- lang/python/frenetic/packet.py: Packet.from_payload. The library's parser is a parameter.
use frenetic.Base.{
  ℕ, List, [], ◌∷◌, ◌++◌, some, Result, ok, err, ◌>>=◌, attribute_error, ◌==◌, if◌then◌else◌,
}
use frenetic.Base.Text.{Text}
use frenetic.Packet.Defs.{Packet, Protocol, empty}

-- The body of the loop over `ryu_pkt.protocols`.
unfoldable pub read_header : Packet → Protocol → Result Packet
read_header pkt (Protocol.ethernet src dst ethertype) = ok (record pkt {
  eth_src = some src;
  eth_dst = some dst;
  eth_type = if ethertype == 0x8100 then pkt.eth_type else some ethertype;
})
read_header pkt (Protocol.vlan vid pcp ethertype) =
    ok (record pkt { vlan = some vid; vlan_pcp = some pcp; eth_type = some ethertype })
read_header pkt (Protocol.ipv4 src dst proto) =
    ok (record pkt { ip4_src = some src; ip4_dst = some dst; ip_proto = some proto })
read_header pkt (Protocol.tcp src_port dst_port) =
    ok (record pkt { tcp_src_port = some src_port; tcp_dst_port = some dst_port })
read_header pkt (Protocol.udp src_port dst_port) =
    ok (record pkt { tcp_src_port = some src_port; tcp_dst_port = some dst_port })
read_header pkt (Protocol.arp opcode src_ip dst_ip src_mac dst_mac) =
    ok (record pkt { ip_proto = some opcode; ip4_src = some src_ip; ip4_dst = some dst_ip })
read_header pkt (Protocol.unknown name contents) =
    ok (record pkt { unknown_headers = pkt.unknown_headers ++ Protocol.unknown name contents ∷ [] })
read_header pkt (Protocol.raw s) = err attribute_error

unfoldable pub read_headers : Packet → List Protocol → Result Packet
unfolding read_header
read_headers pkt [] = ok pkt
read_headers pkt (p ∷ ps) = read_header pkt p >>= λ pkt'. read_headers pkt' ps

unfoldable pub from_payload : (Text → List Protocol) → ℕ → ℕ → Text → Result Packet
unfolding read_headers
from_payload parse dpid port_id raw_data = read_headers (empty dpid port_id) (parse raw_data)
