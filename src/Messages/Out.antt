-- ===== src/Messages/Out.antt =====
-- A packet-out message of lang/python/frenetic/syntax.py, as the controller reads it.
use frenetic.Base.{
  ℕ, ◌^◌, ◌<◌, true, ◌≡◌, refl, List, [], ◌∷◌, map, Option, none, some, ok, All, traverse, lt→ltb,
  arith, ltb,
}
use frenetic.Base.Text.{Text, text_eq}
use frenetic.Base.Base64.{b64encode}
use frenetic.Base.Base64.Laws.{IsBytes}
use frenetic.Json
use frenetic.Json.{Json}
use frenetic.Syntax.Ast.{Policy}
use frenetic.Syntax.Print.{policy_to_json}
use frenetic.Syntax.Wire.Lower.{lower, in_range, has_ports}
use frenetic.Syntax.Wire.Parse.{policy_of_json-policy_to_json}
use frenetic.PacketOut.Defs.{
  Payload, buffered, not_buffered, payload_to_json, PacketOut, opt_nat, packet_out_to_json,
}
use frenetic.Messages.Controller.{
  payload_from_json, policies_of, ingress_port_of_json, pkt_out_from_json,
}

-- The payload that the controller sees: the data of a buffered one are not sent.
abbrev pub received : Payload → Payload
received (buffered id bytes) = buffered id []
received (not_buffered bytes) = not_buffered bytes

-- The buffer's number fits 32 bits with a sign, and the data are bytes.
abbrev pub FitsPayload : Payload → Type 0
FitsPayload (buffered id bytes) = id < 2 ^ 31
FitsPayload (not_buffered bytes) = IsBytes bytes

abbrev pub FitsPort : Option ℕ → Type 0
FitsPort none = Unit
FitsPort (some n) = n < 2 ^ 31

abbrev pub IsPrintable : Policy → Type 0
IsPrintable p = (in_range p ≡ true) × (has_ports p ≡ true)

pub record Fits (o : PacketOut) : Type 0 where
  pub switch_fits : o.switch < 2 ^ 62
  pub payload_fits : FitsPayload o.payload
  pub port_fits : FitsPort o.in_port
  pub printable : All IsPrintable o.policies

policies_of-items :
    (ps : List Policy)
    → All IsPrintable ps
    → (js : List Json) × (traverse policy_to_json ps ≡ ok js)
      × (policies_of (Json.items js) ≡ some (map lower ps))
unfolding policies_of
policies_of-items [] h = ([], refl, refl)
policies_of-items (p ∷ ps) h =
    let (j, e, r) = policy_of_json-policy_to_json p h.0.0 h.0.1 in
    let (js, f, s) = policies_of-items ps h.1 in (j ∷ js, rw e (rw f refl), rw r (rw s refl))

word_fits : (n : ℕ) → n < 2 ^ 31 → ltb n (2 ^ 62) ≡ true
word_fits n h = lt→ltb n (2 ^ 62) (omega arith)

ingress-opt_nat : (i : Option ℕ) → FitsPort i → ingress_port_of_json (opt_nat i) ≡ some i
ingress-opt_nat none h = refl
ingress-opt_nat (some n) h = rw (word_fits n h) (rw (lt→ltb n (2 ^ 31) h) refl)

-- What packet_out_to_json makes of the documents of the policies.
abbrev document : PacketOut → List Json → Json
document o js = Json.obj (
    Json.field "switch" (Json.nat o.switch) (
      Json.field "in_port" (opt_nat o.in_port) (
        Json.field "policies" (Json.arr (Json.items js))
          (Json.field "payload" (payload_to_json o.payload) Json.end))))

module _ (decode : Text → Option Text)
    (decodes : (bytes : Text) → IsBytes bytes → decode (b64encode bytes) ≡ some bytes) where
  payload_from_json-payload_to_json :
      (p : Payload)
      → FitsPayload p
      → payload_from_json decode (payload_to_json p) ≡ some (received p)
  unfolding payload_from_json payload_to_json text_eq
  payload_from_json-payload_to_json (buffered id bytes) h =
      rw (word_fits id h) (rw (lt→ltb id (2 ^ 31) h) refl)
  payload_from_json-payload_to_json (not_buffered bytes) h = rw (decodes bytes h) refl

  -- If the controller's Base64 decoder undoes b64encode on bytes: a PacketOut whose switch fits 62 bits,
  -- whose buffer and port fit 31, and whose policies can be printed, with numbers that fit the wire and
  -- addresses that the controller can read, is printed, and the controller reads the document as the
  -- same switch, port and policies, with the payload, of which a buffered one has lost its data.
  pub pkt_out_from_json-packet_out_to_json :
      (o : PacketOut)
      → Fits o
      → (j : Json) × (packet_out_to_json o ≡ ok j)
        × (pkt_out_from_json decode j
            ≡ some (o.switch, o.in_port, received o.payload, map lower o.policies))
  unfolding packet_out_to_json pkt_out_from_json
  pkt_out_from_json-packet_out_to_json o h =
      let (js, e, r) = policies_of-items o.policies h.printable in
      (
        document o js,
        rw e refl,
        rw (lt→ltb o.switch (2 ^ 62) h.switch_fits) (
            rw (payload_from_json-payload_to_json o.payload h.payload_fits)
              (rw r (rw (ingress-opt_nat o.in_port h.port_fits) refl))),
      )
