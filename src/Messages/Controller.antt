-- ===== src/Messages/Controller.antt =====
-- lib/Frenetic_NetKAT_Json.ml: the events that the controller prints, and the packet-out messages that
-- it reads. The Base64 library is a parameter; `none` stands for an exception.
use frenetic.Base.{
  ℕ, Bool, true, ◌&&◌, List, [], ◌∷◌, map, Option, none, some, if◌then◌else◌, ltb, ◌^◌,
}
use frenetic.Base.Int.{pos}
use frenetic.Base.Text.{Text, codes, text_eq}
use frenetic.Json
use frenetic.Json.{Json, Items, Fields, tag, nat, items, member}
use frenetic.Netkat.Ast.{Policy}
use frenetic.Netkat.Read.{◌>>=◌, to_string, to_int, policy_of_json}
use frenetic.PacketOut.Defs.{Payload, buffered, not_buffered, payload_data}

-- Statistics are carried by their counters.
pub data Event : Type 0 where
  packet_in : (pipe : Text) (sw_id pt_id : ℕ) (payload : Payload) (len : ℕ) → Event
  switch_up : (sw_id : ℕ) (ports : List ℕ) → Event
  switch_down : (sw_id : ℕ) → Event
  port_up : (sw_id pt_id : ℕ) → Event
  port_down : (sw_id pt_id : ℕ) → Event
  port_stats : (counters : Fields) → Event
  flow_stats : (packets bytes : ℕ) → Event

abbrev pub id_of : Payload → Json
id_of (buffered id bytes) = nat id
id_of (not_buffered bytes) = Json.null

-- The document of an event whose numbers are an `int`.
unfoldable pub event_document : (Text → Text) → Event → Json
event_document encode (packet_in pipe sw_id pt_id payload len) = Json.obj (
    Json.field "type" (tag "packet_in") (
      Json.field "pipe" (Json.str pipe) (
        Json.field "switch_id" (nat sw_id) (
          Json.field "port_id" (nat pt_id) (
            Json.field "payload"
              (Json.obj (
                Json.field "buffer" (Json.str (encode (payload_data payload)))
                  (Json.field "id" (id_of payload) Json.end)))
              (Json.field "length" (nat len) Json.end))))))
event_document encode (switch_up sw_id ports) =
    Json.obj3 "type" (tag "switch_up") "switch_id" (nat sw_id) "ports"
      (Json.arr (items (map nat ports)))
event_document encode (switch_down sw_id) =
    Json.obj2 "type" (tag "switch_down") "switch_id" (nat sw_id)
event_document encode (port_up sw_id pt_id) =
    Json.obj3 "type" (tag "port_up") "switch_id" (nat sw_id) "port_id" (nat pt_id)
event_document encode (port_down sw_id pt_id) =
    Json.obj3 "type" (tag "port_down") "switch_id" (nat sw_id) "port_id" (nat pt_id)
event_document encode (port_stats counters) = Json.arr (Json.cons (Json.obj counters) Json.nil)
event_document encode (flow_stats packets bytes) =
    Json.obj2 "packets" (nat packets) "bytes" (nat bytes)

-- Int64.to_int_exn: an `int` has 63 bits. Ports and buffers have 32, so they are always an `int`.
abbrev pub is_int : ℕ → Bool
is_int n = ltb n (2 ^ 62)

abbrev pub has_ints : Event → Bool
has_ints (packet_in pipe sw_id pt_id payload len) = is_int sw_id
has_ints (switch_up sw_id ports) = is_int sw_id
has_ints (switch_down sw_id) = is_int sw_id
has_ints (port_up sw_id pt_id) = is_int sw_id
has_ints (port_down sw_id pt_id) = is_int sw_id
has_ints (port_stats counters) = true
has_ints (flow_stats packets bytes) = is_int packets && is_int bytes

unfoldable pub event_to_json : (Text → Text) → Event → Option Json
unfolding event_document
event_to_json encode e = if has_ints e then some (event_document encode e) else none

-- Int32.of_int_exn, for the numbers that the client sends.
abbrev pub uint31 : ℕ → Option ℕ
uint31 n = if ltb n (2 ^ 31) then some n else none

abbrev payload_of_type : (Text → Option Text) → Text → Json → Option Payload
payload_of_type decode type' j =
    if text_eq type' (codes "notbuffered")
    then (do d ← member "data" j; s ← to_string d; bytes ← decode s; some (not_buffered bytes))
    else if text_eq type' (codes "buffered")
    then (do b ← member "bufferid" j; n ← to_int b; id ← uint31 n; some (buffered id []))
    else none

unfoldable pub payload_from_json : (Text → Option Text) → Json → Option Payload
unfolding text_eq
payload_from_json decode j = do
  t ← member "type" j
  type' ← to_string t
  payload_of_type decode type' j

unfoldable pub policies_of : Items → Option (List Policy)
unfolding policy_of_json
policies_of Json.nil = some []
policies_of (Json.cons j js) = do p ← policy_of_json j; ps ← policies_of js; some (p ∷ ps)

abbrev policies_of_json : Json → Option (List Policy)
policies_of_json (Json.arr js) = policies_of js
policies_of_json _ = none

-- Int32.of_int of Core yields None out of range. What is neither a number nor null is refused.
abbrev pub ingress_port_of_json : Json → Option (Option ℕ)
ingress_port_of_json Json.null = some none
ingress_port_of_json (Json.int (pos n)) = to_int (Json.int (pos n)) >>= λ k. some (uint31 k)
ingress_port_of_json _ = none

unfoldable pub pkt_out_from_json :
    (Text → Option Text) → Json → Option (ℕ × Option ℕ × Payload × List Policy)
unfolding payload_from_json
pkt_out_from_json decode j = do
  s ← member "switch" j
  switch ← to_int s
  b ← member "payload" j
  payload ← payload_from_json decode b
  ps ← member "policies" j
  policies ← policies_of_json ps
  i ← member "in_port" j
  in_port ← ingress_port_of_json i
  some (switch, in_port, payload, policies)
