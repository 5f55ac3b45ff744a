-- ===== src/Tests/Wire.antt =====
-- The theorems on messages and on the loop of events, at concrete inputs.
use frenetic.Base.{
  ℕ, suc, ◌^◌, ◌≡◌, refl, List, [], ◌∷◌, ◌++◌, map, Option, none, some, Result, ok, err, arith, All,
}
use frenetic.Base.Text.{Text, codes, text_eq}
use frenetic.Base.Base64.{b64encode}
use frenetic.Base.Base64.Decode.{b64decode}
use frenetic.Base.Base64.Laws.{b64decode-b64encode}
use frenetic.Json.{Json, Fields}
use frenetic.Syntax.Ast.{Policy}
use frenetic.Syntax.Wire.Lower.{lower, in_range, has_ports}
use frenetic.PacketOut.Defs.{buffered, not_buffered, PacketOut, packet_out_to_json}
use frenetic.Messages.Controller.{Event, event_to_json, pkt_out_from_json}
use frenetic.Messages.Controller as Controller
use frenetic.Messages.Dispatch.{dispatch, event_type, dispatch_type}
use frenetic.Messages.Dispatch as Dispatch
use frenetic.Messages.Events.{dispatch-event_to_json}
use frenetic.Messages.Out.{Fits, pkt_out_from_json-packet_out_to_json}
use frenetic.Client.Requests.{Settings, address, event_request}
use frenetic.Client.Loop.{App, polling, Input, response, timeout, reply, http_error, start, run}
use frenetic.Client.Life.{IsTotal, IsOrderly, documents, serve, run-polling, run-serve}

abbrev frame : Text
frame = 0 ∷ 255 ∷ 17 ∷ 200 ∷ []

abbrev arrival : Event
arrival = Controller.packet_in (codes "http") 1 2 (buffered 7 frame) 4

dispatch-event_to_json_example :
    (j : Json) × (event_to_json b64encode arrival ≡ some j)
    × (dispatch j ≡ ok (Dispatch.packet_in 1 2 (buffered 7 frame)))
dispatch-event_to_json_example =
    dispatch-event_to_json b64encode b64decode-b64encode arrival (ground arith)

-- The first identifier that the controller cannot print.
too_large : event_to_json b64encode (Controller.switch_down (2 ^ 62)) ≡ none
unfolding event_to_json
too_large = refl

-- A decoder for the controller.
abbrev to_option : Result Text → Option Text
to_option (ok bytes) = some bytes
to_option (err e) = none

abbrev decode : Text → Option Text
decode s = to_option (b64decode s)

abbrev message : PacketOut
message = record {
  switch = 1;
  payload = not_buffered frame;
  policies = Policy.set_port (2 ∷ []) ∷ [];
  in_port = some 1;
}

message-Fits : Fits message
unfolding in_range has_ports
message-Fits = record {
  switch_fits = ground arith;
  payload_fits = ground arith;
  port_fits = ground arith;
  printable = ((refl, refl), tt);
}

pkt_out_from_json-packet_out_to_json_example :
    (j : Json) × (packet_out_to_json message ≡ ok j)
    × (pkt_out_from_json decode j
        ≡ some (1, some 1, not_buffered frame, map lower message.policies))
pkt_out_from_json-packet_out_to_json_example =
    pkt_out_from_json-packet_out_to_json decode (λ bytes h. rw (b64decode-b64encode bytes h) refl)
      message message-Fits

-- An application that counts its calls.
abbrev counter : App ℕ
counter = record { handle = λ call n. (suc n, ok tt); connected = λ n. (0, ok tt) }

counter-IsTotal : IsTotal counter
counter-IsTotal = record { returns = λ call n. refl }

-- No controller at first, then one event.
abbrev late : List Input
late =
    response (http_error 599)
    ∷ timeout
    ∷ response (reply (some (Json.obj Fields.end)))
    ∷ response (reply (event_to_json b64encode (Controller.switch_up 1 (1 ∷ 2 ∷ []))))
    ∷ []

late-IsOrderly : All IsOrderly late
unfolding dispatch event_type dispatch_type event_to_json text_eq
late-IsOrderly = (refl, (tt, ((_, refl), ((_, refl), tt))))

run-polling_example :
    (later : List Input) × ((run counter (late ++ later) (start 0)).phase ≡ polling)
run-polling_example = run-polling counter counter-IsTotal late 0 late-IsOrderly

abbrev day : List Event
day =
    Controller.switch_up 1 (1 ∷ 2 ∷ [])
    ∷ Controller.packet_in (codes "http") 1 2 (not_buffered frame) 4
    ∷ []

run-serve_example :
    run counter (documents b64encode day) (record { phase = polling; state = 0 })
    ≡ record { phase = polling; state = serve counter counter-IsTotal day 0 }
run-serve_example =
    run-serve counter counter-IsTotal b64encode b64decode-b64encode day 0 (ground arith)

abbrev plain : Settings
plain = record {
  client_id = some (codes "hub");
  frenetic_http_host = none;
  frenetic_http_port = none;
}

event_url :
    (event_request (address (codes "0") plain)).url ≡ codes "http://localhost:9000/hub/event"
unfolding event_request address
event_url = refl
