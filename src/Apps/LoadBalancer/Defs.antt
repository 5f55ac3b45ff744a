-- ===== src/Apps/LoadBalancer/Defs.antt =====
-- lang/python/frenetic/examples/load_balancer.py: the state and the policy. The dictionary of
-- connections is a list of pairs in the order of insertion.
use frenetic.Base.{
  ℕ, ◌+◌, ◌%◌, Bool, true, false, List, [], ◌∷◌, ◌++◌, map, Option, none, some, Result, ok, err,
  ◌>>=◌, key_error, index_error, zero_division_error, or_raise, traverse, length, get_elem?, ◌==◌,
  if◌then◌else◌,
}
use frenetic.Base.Int.{pos}
use frenetic.Base.Text.{codes}
use frenetic.Value
use frenetic.Value.{Atom, Arg, atom, list}
use frenetic.Syntax.Ast.{Policy, policies}
use frenetic.Syntax.Build.{◌&◌, ~◌, ◌>>>◌, ◌⊔◌}
use frenetic.Syntax.Sugar.Tests.{
  port_eq, eth_type_eq, ip_proto_eq, tcp_src_port_eq, tcp_dst_port_eq,
}
use frenetic.Syntax.Sugar.Sets.{set_port, send_to_controller}
use frenetic.Packet.Defs.{Packet}
use frenetic.Packet.Match.{is_number}

-- A source port is None where a TCP packet has no TCP header.
pub record State : Type 0 where
  pub connections : List (Option ℕ × ℕ)
  pub server_ports : List ℕ
  pub next_server_index : ℕ

-- State(server_ports)
abbrev pub init : List ℕ → State
init ports = record { connections = []; server_ports = ports; next_server_index = 0 }

abbrev pub same_source : Option ℕ → Option ℕ → Bool
same_source none none = true
same_source (some a) (some b) = a == b
same_source _ _ = false

unfoldable pub find : Option ℕ → List (Option ℕ × ℕ) → Option ℕ
find k [] = none
find k ((j, v) ∷ m) = if same_source j k then some v else find k m

-- `(n + 1) % len(...)`, which fails on an empty list
abbrev pub advance : ℕ → List ℕ → Result ℕ
advance n [] = err zero_division_error
advance n (p ∷ ps) = ok ((n + 1) % length (p ∷ ps))

-- The new state is returned beside the port. Where the index is out of range the source has moved
-- it already; that state is not needed, since the exception ends the program's handler.
unfoldable pub next_server_port : State → Result (State × ℕ)
next_server_port s = do
  n' ← advance s.next_server_index s.server_ports
  port ← or_raise index_error (get_elem? s.server_ports s.next_server_index)
  ok (record s { next_server_index = n' }, port)

-- The case of a source port that is not in the dictionary.
abbrev assign_server : Option ℕ → State → Result (State × ℕ)
assign_server src_port s = do
  (s', port) ← next_server_port s
  ok (record s' { connections = s'.connections ++ (src_port, port) ∷ [] }, port)

unfoldable pub new_connection : Option ℕ → State → Result (State × ℕ)
new_connection src_port s = elim (find src_port s.connections) [
  | some port ↦ ok (s, port)
  | none ↦ assign_server src_port s
]

abbrev pub num : ℕ → Arg
num n = atom (Value.int (pos n))

abbrev source_atom : Option ℕ → Atom
source_atom none = Value.other
source_atom (some n) = Value.int (pos n)

unfoldable pub packet_src_port : Packet → Option ℕ
packet_src_port pkt = if is_number pkt.ip_proto 6 then pkt.tcp_src_port else some 0

unfoldable pub route : ℕ → State → Option ℕ → Result Policy
unfolding port_eq tcp_src_port_eq tcp_dst_port_eq ip_proto_eq set_port find
route client_port s src_tcp_port = do
  dst_sw_port ← or_raise key_error (find src_tcp_port s.connections)
  from_client ← port_eq (num client_port ∷ [])
  src ← tcp_src_port_eq (atom (source_atom src_tcp_port) ∷ [])
  to_server ← set_port (num dst_sw_port ∷ [])
  from_server ← port_eq (num dst_sw_port ∷ [])
  dst ← tcp_dst_port_eq (atom (source_atom src_tcp_port) ∷ [])
  to_client ← set_port (num client_port ∷ [])
  tcp ← ip_proto_eq (num 6 ∷ [])
  let client_to_server = Policy.filter (from_client & src) >>> to_server
  let server_to_client = Policy.filter (from_server & dst) >>> to_client
  ok (Policy.filter tcp >>> (client_to_server ⊔ server_to_client))

unfoldable pub to_controller : ℕ → State → Result Policy
unfolding port_eq tcp_src_port_eq
to_controller client_port s = do
  from_client ← port_eq (num client_port ∷ [])
  known ← tcp_src_port_eq (list (map (λ c. source_atom c.0) s.connections) ∷ [])
  ok (Policy.filter (from_client & (~◌ known)) >>> send_to_controller (codes "http"))

unfoldable pub policy : ℕ → State → Result Policy
unfolding route to_controller eth_type_eq
policy client_port s = do
  routes ← traverse (λ c. route client_port s c.0) s.connections
  rest ← to_controller client_port s
  ip ← eth_type_eq (num 0x800 ∷ [])
  ok (Policy.filter ip >>> (Policy.union (policies routes) ⊔ rest))

-- packet_in: the new state, the policy that is sent, and the port that the packet goes out of.
unfoldable pub packet_in : ℕ → State → Packet → Result (State × Policy × Policy)
unfolding new_connection packet_src_port policy set_port
packet_in client_port s pkt = do
  (s', server_port) ← new_connection (packet_src_port pkt) s
  pol ← policy client_port s'
  out ← set_port (num server_port ∷ [])
  ok (s', pol, out)
