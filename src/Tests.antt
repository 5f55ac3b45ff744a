-- ===== src/Tests.antt =====
-- The theorems at concrete inputs.
mod Wire
mod Network
mod Frames
mod Floods
mod Links
mod Scripts
mod Cleanup
mod Counters
use frenetic.Base.{
  ℕ, ◌+◌, ◌*◌, ◌/◌, ◌%◌, ◌^◌, ◌-◌, ◌||◌, true, false, not, ◌≡◌, ◌≢◌, refl, List, [], ◌∷◌, map, none,
  some, ok, err, arith, All, any, ◌==◌, if◌then◌else◌, name_error, failure, is_some, index_error,
}
use frenetic.Base.Int.{pos}
use frenetic.Base.Text.{Text, codes}
use frenetic.Base.Decimal.{show}
use frenetic.Json.{Json}
use frenetic.Value
use frenetic.Value.{Atom, list}
use frenetic.Netkat.Ast as Netkat
use frenetic.Netkat.Address.{mac_of_string, ip_of_string}
use frenetic.Netkat.Eval.{eval, eval_pred}
use frenetic.Netkat.Read.{policy_of_json, from_json_pred}
use frenetic.Syntax.Ast.{
  physical, location, switch, eth_type, tcp_dst_port, ip4_src, eth_src, Pred, Policy,
}
use frenetic.Syntax.Build.{◌&◌, ~◌, ◌>>>◌, if_then_else, int_header, eth_src_init}
use frenetic.Syntax.Print.{policy_to_json, pred_to_json}
use frenetic.Syntax.Meaning.{full, holds, run}
use frenetic.Syntax.Choice.{run-if_then_else}
use frenetic.Syntax.Wire.Lower.{in_range, has_ports, pred_in_range}
use frenetic.Syntax.Wire.Agreement.{
  eval-policy_of_json, eval_pred-from_json_pred, failure-policy_to_json,
}
use frenetic.Syntax.Sugar.Loops.{checked, init_int_eq, init_str_eq, is_port}
use frenetic.Syntax.Sugar.Tests.{port_eq, switch_not_eq}
use frenetic.Syntax.Sugar.Laws.{
  numbers, holds-init_int_eq, holds-switch_not_eq, holds-port_eq, failure-port_eq, port_eq_failure,
  init_str_eq-name_error,
}
use frenetic.Packet.Defs.{Packet, Protocol, empty}
use frenetic.Packet.Match.{matches}
use frenetic.Packet.Decode.{from_payload}
use frenetic.Packet.Encode.{to_protocols, to_payload}
use frenetic.Packet.Roundtrip.{plain, from_payload-to_payload, failure-to_payload}
use frenetic.Packet.Semantics.{
  client_packets, decided, matches_sound, matches-holds, matches-ip4_src,
}
use frenetic.NetUtils.Defs.{ipv4_to_int, ipv4_to_str, ip_in_network, host_of_ip, ip_for_network}
use frenetic.NetUtils.Address.{ipv4_to_int-ipv4_to_str}
use frenetic.NetUtils.Network.{
  address, cidr, ip_in_network-cidr, host_of_ip-cidr, ip_for_network-cidr,
}
use frenetic.PacketOut.Defs as Out
use frenetic.PacketOut.Defs.{Item}
use frenetic.PacketOut.Scrub.{scrub_all-set_port}
use frenetic.Apps.LoadBalancer.Defs as Balancer
use frenetic.Apps.LoadBalancer.Defs.{new_connection}
use frenetic.Apps.LoadBalancer.Rotation.{
  IsValid, Keeps, serve, circle, new_connection-Keeps, serve-rotation,
}
use frenetic.Apps.Learning.State as Learning
use frenetic.Apps.Learning.Keys as Keys
use frenetic.Apps.Learning.Keys.{failure-learn}
use frenetic.Apps.Learning.Again.{learn_again}
use frenetic.Apps.Firewall.State as Firewall
use frenetic.Apps.Firewall.History as History
use frenetic.Apps.Firewall.Distinct.{IsDistinct, run-IsDistinct}
use frenetic.Apps.Firewall.History.{Event, Asked, Answered, run-allowed}

-- A packet from 10.0.0.1 to 10.0.0.2, and the one that answers it.
abbrev request : Packet
request = record (empty 1 1) {
  eth_src = some (codes "00:00:00:00:00:01");
  eth_dst = some (codes "00:00:00:00:00:02");
  eth_type = some 0x800;
  ip4_src = some (address 0x0A000001);
  ip4_dst = some (address 0x0A000002);
  ip_proto = some 6;
  tcp_src_port = some 4000;
  tcp_dst_port = some 80;
}

abbrev reply : Packet
reply = record (empty 1 2) {
  eth_type = some 0x800;
  ip4_src = some (address 0x0A000002);
  ip4_dst = some (address 0x0A000001);
  ip_proto = some 6;
  tcp_src_port = some 80;
  tcp_dst_port = some 4000;
}

abbrev web : Pred
web = Pred.test (eth_type 0x800) & (~◌ (Pred.test (tcp_dst_port 22)))

-- The addresses that the controller reads, and texts that it refuses.
mac-read :
    (mac_of_string (codes "00:00:0a:00:00:01") ≡ some 0x0a000001)
    × (mac_of_string (codes "zz") ≡ none)
    × (mac_of_string (codes "0:0:0:0:0:zz") ≡ none)
unfolding mac_of_string
mac-read = (refl, refl, refl)

ip-read :
    (ip_of_string (codes "10.0.0.1") ≡ some 0x0a000001)
    × (ip_of_string (codes "255.255.255.255") ≡ some 0xffffffff)
    × (ip_of_string (codes "10.0.1") ≡ none)
    × (ip_of_string (codes "10.0.0.x") ≡ none)
unfolding ip_of_string
ip-read = (refl, refl, refl, refl)

abbrev addressed : Pred
addressed =
    web
    & Pred.test (eth_src (codes "00:00:00:00:00:01"))
    & Pred.test (ip4_src (codes "10.0.0.0") (some (pos 24)))

abbrev web_policy : Policy
web_policy = Policy.filter addressed >>> Policy.set_port (1 ∷ 2 ∷ [])

web-in_range : in_range web_policy ≡ true
unfolding in_range pred_in_range mac_of_string ip_of_string
web-in_range = refl

web-has_ports : has_ports web_policy ≡ true
unfolding has_ports
web-has_ports = refl

eval-policy_of_json_example :
    (j : Json) × (w : Netkat.Policy) × (policy_to_json web_policy ≡ ok j)
    × (policy_of_json j ≡ some w)
    × ((pkt : Packet) → eval client_packets pkt w ≡ run client_packets pkt web_policy)
eval-policy_of_json_example =
    eval-policy_of_json client_packets web_policy web-in_range web-has_ports

addressed-in_range : pred_in_range addressed ≡ true
unfolding pred_in_range mac_of_string ip_of_string
addressed-in_range = refl

eval_pred-from_json_pred_example :
    (w : Netkat.Pred) × (from_json_pred (pred_to_json addressed) ≡ some w)
    × ((pkt : Packet) → eval_pred client_packets pkt w ≡ holds client_packets pkt addressed)
eval_pred-from_json_pred_example =
    eval_pred-from_json_pred client_packets addressed addressed-in_range

failure-policy_to_json_example :
    failure (policy_to_json (Policy.set_port []))
    ≡ (if has_ports (Policy.set_port []) then none else some index_error)
failure-policy_to_json_example = failure-policy_to_json (Policy.set_port [])

run-if_then_else_example :
    run client_packets request (if_then_else web (Policy.set_port (1 ∷ [])) web_policy) ≡ (
      if holds client_packets request web
      then run client_packets request (Policy.set_port (1 ∷ []))
      else run client_packets request web_policy)
run-if_then_else_example =
    run-if_then_else client_packets request web (Policy.set_port (1 ∷ [])) web_policy

holds-init_int_eq_example :
    (p : Pred) × (init_int_eq (int_header tcp_dst_port) (numbers (80 ∷ 443 ∷ [])) ≡ ok p)
    × ((pkt : Packet)
        → holds client_packets pkt p
          ≡ any (λ n. client_packets.holds (full (tcp_dst_port n)) pkt) (80 ∷ 443 ∷ []))
holds-init_int_eq_example = holds-init_int_eq client_packets tcp_dst_port (80 ∷ 443 ∷ [])

holds-switch_not_eq_example :
    (p : Pred) × (switch_not_eq (numbers (1 ∷ 2 ∷ [])) ≡ ok p)
    × ((pkt : Packet)
        → holds client_packets pkt p
          ≡ not (any (λ n. client_packets.holds (switch n) pkt) (1 ∷ 2 ∷ [])))
holds-switch_not_eq_example = holds-switch_not_eq client_packets (1 ∷ 2 ∷ [])

failure-port_eq_example : failure (port_eq (numbers (1 ∷ 0 ∷ []))) ≡ port_eq_failure (1 ∷ 0 ∷ [])
failure-port_eq_example = failure-port_eq (1 ∷ 0 ∷ [])

request-decided : decided request web ≡ true
unfolding decided frenetic.Packet.Match.match_test
request-decided = refl

matches-holds_example : matches request web ≡ ok (holds client_packets request web)
matches-holds_example = matches-holds request web request-decided

request-matches : matches request web ≡ ok true
unfolding matches frenetic.Packet.Match.match_test
request-matches = refl

matches-ip4_src_example :
    matches request (Pred.test (ip4_src (address 0x0A000000) (some (pos 24))))
    ≡ ok (0x0A000000 / 2 ^ (32 - 24) == 0x0A000001 / 2 ^ (32 - 24))
matches-ip4_src_example =
    matches-ip4_src request 0x0A000001 0x0A000000 24 (omega arith) (omega arith) (omega arith) refl

ip_in_network-cidr_example :
    ip_in_network (address 0x0A000001) (cidr 0x0A000000 24)
    ≡ ok (0x0A000000 / 2 ^ (32 - 24) == 0x0A000001 / 2 ^ (32 - 24))
ip_in_network-cidr_example =
    ip_in_network-cidr 0x0A000000 24 (omega arith) (omega arith) 0x0A000001 (omega arith)

ipv4_to_int-ipv4_to_str_example : ipv4_to_int (ipv4_to_str (pos 0x0A000001)) ≡ ok (pos 0x0A000001)
ipv4_to_int-ipv4_to_str_example = ipv4_to_int-ipv4_to_str 0x0A000001 (omega arith)

abbrev arp_headers : List Protocol
arp_headers =
    Protocol.ethernet (codes "a") (codes "b") 0x806
    ∷ Protocol.arp 1 (codes "10.0.0.1") (codes "10.0.0.2") (codes "a") (codes "b")
    ∷ []

abbrev arp_packet : Packet
arp_packet =
    plain 1 2 (codes "a") (codes "b") 0x806 (some (codes "10.0.0.1")) (some (codes "10.0.0.2"))
      (some 1) []

arp-to_protocols : to_protocols [] arp_packet ≡ ok arp_headers
unfolding to_protocols frenetic.Packet.Encode.check_ip frenetic.Packet.Encode.check_ports
    frenetic.Packet.Encode.inner
arp-to_protocols = refl

from_payload-to_payload_example : from_payload (λ frame. arp_headers) 1 2 [] ≡ ok arp_packet
from_payload-to_payload_example =
    from_payload-to_payload 1 2 (codes "a") (codes "b") 0x806 [] tt (some (codes "10.0.0.1"))
      (some (codes "10.0.0.2")) (some 1) arp_headers (λ frame. arp_headers) (λ headers. []) refl
      arp-to_protocols

-- The same packet as IPv4, which passes the checks.
abbrev ip_packet : Packet
ip_packet =
    plain 1 2 (codes "a") (codes "b") 0x800 (some (codes "10.0.0.1")) (some (codes "10.0.0.2"))
      (some 1) []

ip_packet-checked : frenetic.Packet.Encode.check_ip ip_packet ≡ ok tt
unfolding frenetic.Packet.Encode.check_ip frenetic.Packet.Encode.check_ports
ip_packet-checked = refl

failure-to_payload_example :
    failure (to_payload (λ headers. codes "frame") [] ip_packet)
    ≡ (if is_some ip_packet.vlan || 0x800 == 0x800 then some name_error else none)
failure-to_payload_example =
    failure-to_payload (λ headers. codes "frame") [] ip_packet (codes "a") (codes "b") 0x800 refl
      refl refl refl ip_packet-checked

abbrev two_ports : Out.PacketOut
two_ports = record {
  switch = 1;
  payload = Out.Payload.not_buffered (codes "frame");
  policies = map Out.mod_port (1 ∷ 2 ∷ []);
  in_port = none;
}

abbrev servers : Balancer.State
servers = Balancer.init (2 ∷ 3 ∷ [])

servers-IsValid : IsValid servers
servers-IsValid = record { turn = omega arith; served = tt }

new_connection-Keeps_example :
    (s' : Balancer.State) × (p : ℕ) × (new_connection (some 4000) servers ≡ ok (s', p))
    × Keeps (some 4000) servers s' p
new_connection-Keeps_example = new_connection-Keeps (some 4000) servers servers-IsValid

serve-rotation_example :
    (ps : List ℕ) × (serve (some 4000 ∷ some 4001 ∷ some 4002 ∷ []) servers ≡ ok ps)
    × (map some ps ≡ circle (2 ∷ 3 ∷ []) 0 3)
serve-rotation_example =
    serve-rotation (some 4000 ∷ some 4001 ∷ some 4002 ∷ []) servers servers-IsValid
      (unfold Balancer.find in (refl, λ p. (refl, λ q. (refl, λ r. tt))))

abbrev trusted : List Text
trusted = address 0x0A000001 ∷ []

abbrev exchange : List Event
exchange = Event.packet request 10 ∷ Event.packet reply 11 ∷ []

run-allowed_example :
    All
      (λ a. Asked trusted exchange a.conn × Answered exchange a.conn)
      (History.run (Firewall.init trusted 2) exchange).allowed
run-allowed_example = run-allowed trusted 2 exchange refl

run-IsDistinct_example : IsDistinct (History.run (Firewall.init trusted 2) exchange)
run-IsDistinct_example = run-IsDistinct trusted 2 exchange refl

abbrev frame_headers : Text → List Protocol
frame_headers frame = Protocol.ethernet (codes "a") (codes "b") 0x800 ∷ []

abbrev switch_events : List Keys.Event
switch_events = Keys.Event.up 1 (1 ∷ 2 ∷ []) ∷ Keys.Event.packet 1 [] 2 ∷ Keys.Event.down 1 ∷ []

failure-learn_example :
    failure
      (Learning.learn frame_headers 1 [] 2 (Keys.run frame_headers switch_events Learning.init)).1
    ≡ failure (from_payload frame_headers 1 2 [])
failure-learn_example = failure-learn frame_headers switch_events 1 [] 2

abbrev learned : Learning.State
learned = record {
  table = (1, (some (codes "a"), 2) ∷ []) ∷ [];
  topo = (1, []) ∷ [];
  all_ethernet = some (codes "a") ∷ [];
}

learn-learned : Learning.learn frame_headers 1 [] 2 Learning.init ≡ (learned, ok true)
unfolding Learning.learn Learning.ensure Learning.learn_mac Learning.seen Learning.put_mac
    from_payload frenetic.Packet.Decode.read_headers frenetic.Packet.Decode.read_header
    frenetic.Apps.Learning.Dict.get frenetic.Apps.Learning.Dict.put
learn-learned = refl

learn_again_example : Learning.learn frame_headers 1 [] 2 learned ≡ (learned, ok false)
learn_again_example = learn_again frame_headers 1 [] 2 Learning.init learned true learn-learned
