-- ===== src/Messages/Events.antt =====
-- What the controller tells in an event reaches the handler of that event.
use frenetic.Base.{ℕ, ◌^◌, ◌<◌, true, ◌≡◌, refl, map, some, ok, lt→ltb, arith}
use frenetic.Base.Text.{Text, text_eq}
use frenetic.Base.Base64.Decode.{b64decode}
use frenetic.Base.Base64.Laws.{IsBytes}
use frenetic.Json
use frenetic.Json.{Json, nat, items}
use frenetic.Value.{integer, assert_int}
use frenetic.PacketOut.Defs.{Payload, buffered, not_buffered, payload_data}
use frenetic.Messages.Defs.{
  is_tag, atom_of, decode_item, buffered_init, payload_of, payload_from_json, packet_in_init,
}
use frenetic.Messages.Controller.{
  Event, packet_in, switch_up, switch_down, port_up, port_down, port_stats, flow_stats, id_of,
  event_document, has_ints, event_to_json,
}
use frenetic.Messages.Dispatch.{Call, event_type, dispatch_type, dispatch}
use frenetic.Messages.Dispatch

-- The call that an event is for.
abbrev pub call_of : Event → Call
call_of (packet_in pipe sw_id pt_id payload len) = Dispatch.packet_in sw_id pt_id payload
call_of (switch_up sw_id ports) = Dispatch.switch_up (nat sw_id) (Json.arr (items (map nat ports)))
call_of (switch_down sw_id) = Dispatch.switch_down (nat sw_id)
call_of (port_up sw_id pt_id) = Dispatch.port_up (nat sw_id) (nat pt_id)
call_of (port_down sw_id pt_id) = Dispatch.port_down (nat sw_id) (nat pt_id)
call_of (port_stats counters) = Dispatch.nothing
call_of (flow_stats packets bytes) = Dispatch.nothing

-- The numbers of a packet fit an `int`, as those of the controller do, and its data are bytes.
abbrev pub FitsPayload : Payload → Type 0
FitsPayload (buffered id bytes) = (id < 2 ^ 63) × IsBytes bytes
FitsPayload (not_buffered bytes) = IsBytes bytes

abbrev pub Fits : Event → Type 0
Fits (packet_in pipe sw_id pt_id payload len) =
    (sw_id < 2 ^ 62) × (pt_id < 2 ^ 63) × FitsPayload payload
Fits (switch_up sw_id ports) = sw_id < 2 ^ 62
Fits (switch_down sw_id) = sw_id < 2 ^ 62
Fits (port_up sw_id pt_id) = sw_id < 2 ^ 62
Fits (port_down sw_id pt_id) = sw_id < 2 ^ 62
Fits (port_stats counters) = Unit
Fits (flow_stats packets bytes) = (packets < 2 ^ 62) × (bytes < 2 ^ 62)

has_ints-Fits : (e : Event) → Fits e → has_ints e ≡ true
has_ints-Fits (packet_in pipe sw_id pt_id payload len) h = lt→ltb sw_id (2 ^ 62) h.0
has_ints-Fits (switch_up sw_id ports) h = lt→ltb sw_id (2 ^ 62) h
has_ints-Fits (switch_down sw_id) h = lt→ltb sw_id (2 ^ 62) h
has_ints-Fits (port_up sw_id pt_id) h = lt→ltb sw_id (2 ^ 62) h
has_ints-Fits (port_down sw_id pt_id) h = lt→ltb sw_id (2 ^ 62) h
has_ints-Fits (port_stats counters) h = refl
has_ints-Fits (flow_stats packets bytes) h =
    rw (lt→ltb packets (2 ^ 62) h.0) (lt→ltb bytes (2 ^ 62) h.1)

assert_int-nat : (n : ℕ) → n < 2 ^ 63 → assert_int (λ n. true) (atom_of (nat n)) ≡ ok n
unfolding assert_int atom_of integer
assert_int-nat n h = rw (lt→ltb n (2 ^ 63) h) refl

module _ (encode : Text → Text)
    (decodes : (bytes : Text) → IsBytes bytes → b64decode (encode bytes) ≡ ok bytes) where
  -- The payload's document, as the controller prints it.
  abbrev payload_document : Payload → Json
  payload_document p = Json.obj2 "buffer" (Json.str (encode (payload_data p))) "id" (id_of p)

  payload_from_json-document :
      (p : Payload) → FitsPayload p → payload_from_json (payload_document p) ≡ ok p
  unfolding payload_from_json payload_of decode_item buffered_init
  payload_from_json-document (buffered id bytes) h =
      rw (decodes bytes h.1) (rw (assert_int-nat id h.0) refl)
  payload_from_json-document (not_buffered bytes) h = rw (decodes bytes h) refl

  dispatch-packet_in :
      (pipe : Text) (sw_id pt_id : ℕ) (p : Payload) (len : ℕ)
      → sw_id < 2 ^ 63
      → pt_id < 2 ^ 63
      → FitsPayload p
      → dispatch (event_document encode (packet_in pipe sw_id pt_id p len))
        ≡ ok (Dispatch.packet_in sw_id pt_id p)
  unfolding dispatch event_type dispatch_type event_document packet_in_init is_tag text_eq
  dispatch-packet_in pipe sw_id pt_id p len h k f =
      rw (assert_int-nat sw_id h)
        (rw (assert_int-nat pt_id k) (rw (payload_from_json-document p f) refl))

  dispatch-event_document :
      (e : Event) → Fits e → dispatch (event_document encode e) ≡ ok (call_of e)
  unfolding dispatch event_type dispatch_type event_document is_tag text_eq
  dispatch-event_document (packet_in pipe sw_id pt_id p len) h =
      dispatch-packet_in pipe sw_id pt_id p len (omega (arith, h.0)) h.1 h.2
  dispatch-event_document (switch_up sw_id ports) h = refl
  dispatch-event_document (switch_down sw_id) h = refl
  dispatch-event_document (port_up sw_id pt_id) h = refl
  dispatch-event_document (port_down sw_id pt_id) h = refl
  dispatch-event_document (port_stats counters) h = refl
  dispatch-event_document (flow_stats packets bytes) h = refl

  -- If b64decode undoes the controller's encoder on bytes, each event whose numbers fit is printed, and its
  -- document is dispatched to the event's handler, with the numbers, the ports and the payload as they
  -- were. Statistics are dispatched to no handler.
  pub dispatch-event_to_json :
      (e : Event)
      → Fits e
      → (j : Json) × (event_to_json encode e ≡ some j) × (dispatch j ≡ ok (call_of e))
  unfolding event_to_json
  dispatch-event_to_json e h =
      (event_document encode e, rw (has_ints-Fits e h) refl, dispatch-event_document e h)
