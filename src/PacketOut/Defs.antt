-- ===== src/PacketOut/Defs.antt =====
-- lang/python/frenetic/syntax.py: Buffered, NotBuffered and PacketOut.
use mathlib.Core.List.{flatten}
use frenetic.Base.{
  ℕ, Bool, true, false, List, [], ◌∷◌, map, Option, none, some, Result, ok, err, ◌>>=◌, ◌>>◌, guard,
  assertion_error, traverse,
}
use frenetic.Base.Text.{Text}
use frenetic.Base.Base64.{b64encode}
use frenetic.Json
use frenetic.Json.{Json, Items, tag, nat, obj2}
use frenetic.Value.{Atom, assert_int}
use frenetic.Syntax.Ast.{physical, HeaderAndValue, location, Policy, policy_list}
use frenetic.Syntax.Print.{policy_to_json}

-- A buffered payload has its identifier and its data.
pub data Payload : Type 0 where
  buffered : ℕ → Text → Payload
  not_buffered : Text → Payload

unfoldable pub payload_to_json : Payload → Json
unfolding b64encode
payload_to_json (buffered buffer_id bytes) = obj2 "type" (tag "buffered") "bufferid" (nat buffer_id)
payload_to_json (not_buffered bytes) =
    obj2 "type" (tag "notbuffered") "data" (Json.str (b64encode bytes))

-- The attribute `data`.
abbrev pub payload_data : Payload → Text
payload_data (buffered buffer_id bytes) = bytes
payload_data (not_buffered bytes) = bytes

-- An element of the list of policies: an Output, a policy, or something else.
pub data Item : Type 0 where
  output : ℕ → Item
  policy : Policy → Item
  other : Item

-- The argument `policies`.
pub data Policies : Type 0 where
  list : List Item → Policies
  policy : Policy → Policies
  other : Policies

-- Sequences are flattened, and a single policy stands for the list of it.
unfoldable pub flatten_policies : Policies → Result (List Item)
flatten_policies (list items) = ok items
flatten_policies (policy (Policy.seq ps)) = ok (map Item.policy (policy_list ps))
flatten_policies (policy (Policy.single_policy p)) = ok (Item.policy (Policy.single_policy p) ∷ [])
flatten_policies (policy (Policy.set_port ns)) = ok (Item.policy (Policy.set_port ns) ∷ [])
flatten_policies _ = err assertion_error

-- `Mod(Location(Physical(p)))`
abbrev pub mod_port : ℕ → Policy
mod_port p = Policy.mod' (location (physical p))

-- "Only port outputs are allowed in pkt_out"
abbrev pub is_port_output : HeaderAndValue → Bool
is_port_output (location (physical p)) = true
is_port_output (location _) = false
is_port_output hv = true

-- The body of the loop: what it appends to `scrubbed_policies`.
unfoldable pub scrub : Item → Result (List Policy)
scrub (output p) = ok (mod_port p ∷ [])
scrub (policy (Policy.mod' hv)) = guard (is_port_output hv) >> ok (Policy.mod' hv ∷ [])
scrub (policy (Policy.set_port ns)) = ok (map mod_port ns)
scrub (policy (Policy.single_policy p)) = ok (Policy.single_policy p ∷ [])
scrub _ = err assertion_error

pub record PacketOut : Type 0 where
  pub switch : ℕ
  pub payload : Payload
  pub policies : List Policy
  pub in_port : Option ℕ

-- `in_port == None or (type(in_port) == int and in_port >= 0)`
unfoldable pub check_in_port : Option Atom → Result (Option ℕ)
unfolding assert_int
check_in_port none = ok none
check_in_port (some v) = assert_int (λ n. true) v >>= λ n. ok (some n)

-- The scrubbed policies of a list.
unfoldable pub scrub_all : List Item → Result (List Policy)
unfolding scrub flatten
scrub_all items = traverse scrub items >>= λ scrubbed. ok (flatten scrubbed)

unfoldable pub packet_out : Atom → Payload → Policies → Option Atom → Result PacketOut
packet_out switch payload policies in_port = do
  sw ← assert_int (λ n. true) switch
  items ← flatten_policies policies
  scrubbed ← scrub_all items
  port ← check_in_port in_port
  ok (record { switch = sw; payload = payload; policies = scrubbed; in_port = port })

abbrev pub opt_nat : Option ℕ → Json
opt_nat none = Json.null
opt_nat (some n) = nat n

unfoldable pub packet_out_to_json : PacketOut → Result Json
unfolding payload_to_json policy_to_json
packet_out_to_json o = do
  js ← traverse policy_to_json o.policies
  ok (
      Json.obj (
        Json.field "switch" (nat o.switch) (
          Json.field "in_port" (opt_nat o.in_port) (
            Json.field "policies" (Json.arr (Json.items js))
              (Json.field "payload" (payload_to_json o.payload) Json.end)))))
