-- ===== src/Client/Methods.antt =====
-- lang/python/frenetic/__init__.py: the methods of App that an application calls. A request is its body, and
-- an answer is its document.
use frenetic.Base.{
  List, [], ◌∷◌, Option, none, some, Result, ok, err, ◌>>=◌, attribute_error, type_error,
  value_error, or_raise, if◌then◌else◌,
}
use frenetic.Base.Int.{ℤ, pos}
use frenetic.Base.Text.{Text, codes, text_eq}
use frenetic.Base.Decimal.{parse_int}
use frenetic.Json
use frenetic.Json.{Json, Items}
use frenetic.Value.{Atom}
use frenetic.Syntax.Ast.{Policy}
use frenetic.Syntax.Print.{policy_to_json}
use frenetic.Packet.Defs.{Protocol}
use frenetic.PacketOut.Defs.{Payload, Policies, packet_out, packet_out_to_json}
use frenetic.Messages.Defs.{item, CompilerOptions, options_to_json}

-- The attribute `protocol_name`; the undecoded rest of a frame, a text, has none.
abbrev pub protocol_name : Protocol → Result Text
protocol_name (Protocol.ethernet src dst ethertype) = ok (codes "ethernet")
protocol_name (Protocol.vlan vid pcp ethertype) = ok (codes "vlan")
protocol_name (Protocol.ipv4 src dst proto) = ok (codes "ipv4")
protocol_name (Protocol.tcp src dst) = ok (codes "tcp")
protocol_name (Protocol.udp src dst) = ok (codes "udp")
protocol_name (Protocol.arp opcode src_ip dst_ip src_mac dst_mac) = ok (codes "arp")
protocol_name (Protocol.unknown name contents) = ok name
protocol_name (Protocol.raw s) = err attribute_error

-- App.packet: the first header of the name
unfoldable pub find_protocol : Text → List Protocol → Result (Option Protocol)
unfolding text_eq
find_protocol protocol [] = ok none
find_protocol protocol (p ∷ ps) =
    let rest = find_protocol protocol ps in
    protocol_name p >>= λ name. if text_eq name protocol then ok (some p) else rest

unfoldable pub packet : (Text → List Protocol) → Text → Text → Result (Option Protocol)
unfolding find_protocol
packet parse bytes protocol = find_protocol protocol (parse bytes)

-- App.pkt_out: `policies` stands before `actions`.
abbrev pub choose : Option Policies → Policies → Policies
choose none actions = actions
choose (some policies) actions = policies

unfoldable pub pkt_out : Atom → Payload → Policies → Option Atom → Option Policies → Result Json
unfolding packet_out packet_out_to_json
pkt_out switch_id payload actions in_port policies =
    packet_out switch_id payload (choose policies actions) in_port >>= λ msg. packet_out_to_json msg

-- App.update and App.config
unfoldable pub update : Policy → Result Json
unfolding policy_to_json
update policy = policy_to_json policy

-- What a handler that calls update with a policy has sent, or the exception that printing it raises.
unfoldable pub sends : Policy → Result Policy
unfolding update
sends policy = update policy >>= λ j. ok policy

unfoldable pub config : CompilerOptions → Json
unfolding options_to_json
config compiler_options = options_to_json compiler_options

-- `int(j)`, where true is 1 and false is 0
unfoldable pub int_of : Json → Result ℤ
int_of (Json.int n) = ok n
int_of (Json.str s) = or_raise value_error (parse_int s)
int_of (Json.bool b) = ok (pos (if b then 1 else 0))
int_of j = err type_error

-- App.run_response: the counters of a query
unfoldable pub run_response : Json → Result (ℤ × ℤ)
unfolding int_of
run_response j = do
  p ← item "packets" j
  ps ← int_of p
  b ← item "bytes" j
  bs ← int_of b
  ok (ps, bs)

-- App.current_switches: the pairs of which the dictionary is made
unfoldable pub switch_items : Items → Result (List (Json × Json))
switch_items Json.nil = ok []
switch_items (Json.cons x xs) = do
  switch_id ← item "switch_id" x
  ports ← item "ports" x
  rest ← switch_items xs
  ok ((switch_id, ports) ∷ rest)

-- A list is what the controller sends; another document is not gone into.
unfoldable pub current_switches : Json → Result (List (Json × Json))
unfolding switch_items
current_switches (Json.arr xs) = switch_items xs
current_switches j = err type_error
