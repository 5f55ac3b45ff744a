-- ===== src/Packet/Encode.antt =====
-- lang/python/frenetic/packet.py: Packet.to_payload. The library's serializer is a parameter.
use frenetic.Base.{
  ℕ, Bool, not, ◌||◌, List, [], ◌∷◌, ◌++◌, Option, none, some, Result, ok, err, ◌>>=◌, ◌>>◌, guard,
  assertion_error, name_error, is_some, ◌==◌, if◌then◌else◌,
}
use frenetic.Base.Text.{Text}
use frenetic.Packet.Defs.{Packet, Protocol}
use frenetic.Packet.Match.{is_number}

-- The checks of the packet's fields; those of TCP and UDP stand within those of IP and ARP.
abbrev is_tcp_or_udp : Packet → Bool
is_tcp_or_udp pkt = is_number pkt.ip_proto 6 || is_number pkt.ip_proto 17

abbrev is_ip_or_arp : Packet → Bool
is_ip_or_arp pkt = is_number pkt.eth_type 0x800 || is_number pkt.eth_type 0x806

unfoldable pub check_ports : Packet → Result (Unit {0})
check_ports pkt =
    if is_tcp_or_udp pkt || is_some pkt.tcp_src_port || is_some pkt.tcp_dst_port
    then (do
      guard (is_some pkt.tcp_src_port)
      guard (is_some pkt.tcp_dst_port)
      guard (is_tcp_or_udp pkt))
    else ok tt

unfoldable pub check_ip : Packet → Result (Unit {0})
unfolding check_ports
check_ip pkt =
    if is_ip_or_arp pkt || is_some pkt.ip4_src || is_some pkt.ip4_dst || is_some pkt.ip_proto
    then (do
      guard (is_some pkt.ip4_src)
      guard (is_some pkt.ip4_dst)
      guard (is_some pkt.ip_proto)
      guard (is_ip_or_arp pkt)
      check_ports pkt)
    else ok tt

-- `assert x != None`, and the value from there on
abbrev pub given {ℓ} : {A : Type ℓ} → Option A → Result A
given none = err assertion_error
given (some a) = ok a

-- The header after the Ethernet header. The modules vlan and ipv4 are not imported, so their names
-- are unbound.
unfoldable pub inner : Packet → Text → Text → ℕ → Result (List Protocol)
inner pkt src dst type' =
    if is_some pkt.vlan
    then err name_error
    else if type' == 0x806
    then (do
      opcode ← given pkt.ip_proto
      src_ip ← given pkt.ip4_src
      dst_ip ← given pkt.ip4_dst
      ok (Protocol.arp opcode src_ip dst_ip src dst ∷ []))
    else if type' == 0x800
    then err name_error
    else ok []

unfoldable pub to_protocols : List Protocol → Packet → Result (List Protocol)
unfolding check_ip inner
to_protocols ryu_packet_headers pkt = do
  src ← given pkt.eth_src
  dst ← given pkt.eth_dst
  type' ← given pkt.eth_type
  guard (not (type' == 0x8100))
  check_ip pkt
  protocols ← inner pkt src dst type'
  ok (
      Protocol.ethernet src dst (if is_some pkt.vlan then 0x8100 else type')
      ∷ (protocols ++ (ryu_packet_headers ++ pkt.unknown_headers)))

-- The data of the NotBuffered payload; a2b_base64 undoes b2a_base64.
unfoldable pub to_payload : (List Protocol → Text) → List Protocol → Packet → Result Text
unfolding to_protocols
to_payload serialize ryu_packet_headers pkt =
    to_protocols ryu_packet_headers pkt >>= λ ps. ok (serialize ps)
