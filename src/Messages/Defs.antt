-- ===== src/Messages/Defs.antt =====
-- lang/python/frenetic/syntax.py: Payload.from_json, PacketIn, Stats and CompilerOptions. A document's
-- keys are distinct, and no number in it has a fraction.
use frenetic.Base.{
  ℕ, String, Bool, true, false, Option, none, Result, ok, err, ◌>>=◌, guard, assertion_error,
  key_error, type_error, or_raise,
}
use frenetic.Base.Text.{Text, codes, text_eq}
use frenetic.Base.Base64.Decode.{b64decode}
use frenetic.Json
use frenetic.Json.{Json, find}
use frenetic.Value
use frenetic.Value.{Atom, integer, assert_int}
use frenetic.PacketOut.Defs.{Payload, buffered, not_buffered}

-- `json[k]`: only an object has keys of text.
abbrev pub item : String → Json → Result Json
item k (Json.obj fs) = or_raise key_error (find k fs)
item k j = err type_error

-- What `json.loads` makes of a document that is no list and no object. A text is `unicode`; true, false
-- and null are of other types.
unfoldable pub atom_of : Json → Atom
unfolding integer
atom_of (Json.int n) = integer n
atom_of (Json.str s) = Value.unicode s
atom_of j = Value.other

-- `json[k] == v`, for a constant text
unfoldable pub is_tag : String → Json → Bool
unfolding text_eq
is_tag v (Json.str s) = text_eq s (codes v)
is_tag v j = false

-- `base64.b64decode(j)`
unfoldable pub decode_item : Json → Result Text
unfolding b64decode
decode_item (Json.str s) = b64decode s
decode_item j = err type_error

-- Buffered(buffer_id, data)
unfoldable pub buffered_init : Json → Text → Result Payload
unfolding assert_int atom_of
buffered_init id bytes = assert_int (λ n. true) (atom_of id) >>= λ n. ok (buffered n bytes)

-- The two branches of Payload.from_json, by its first item.
unfoldable pub payload_of : Json → Json → Result Payload
unfolding buffered_init decode_item
payload_of Json.null j = do
  buffer ← item "buffer" j
  bytes ← decode_item buffer
  ok (not_buffered bytes)
payload_of id j = do buffer ← item "buffer" j; bytes ← decode_item buffer; buffered_init id bytes

unfoldable pub payload_from_json : Json → Result Payload
unfolding payload_of
payload_from_json j = item "id" j >>= λ id. payload_of id j

pub record PacketIn : Type 0 where
  pub switch_id : ℕ
  pub port_id : ℕ
  pub payload : Payload

-- PacketIn(json)
unfoldable pub packet_in_init : Json → Result PacketIn
unfolding assert_int atom_of is_tag payload_from_json
packet_in_init j = do
  type' ← item "type" j
  _ ← guard (is_tag "packet_in" type')
  sw ← item "switch_id" j
  switch_id ← assert_int (λ n. true) (atom_of sw)
  pt ← item "port_id" j
  port_id ← assert_int (λ n. true) (atom_of pt)
  body ← item "payload" j
  payload ← payload_from_json body
  ok (record { switch_id = switch_id; port_id = port_id; payload = payload })

-- Stats(packets, bytes)
pub record Stats : Type 0 where
  pub packets : Json
  pub bytes : Json

-- Stats.from_json makes an object and does not return it, so the call yields None.
unfoldable pub stats_from_json : Json → Result (Option Stats)
stats_from_json j = do packets ← item "packets" j; bytes ← item "bytes" j; ok none

-- An argument of CompilerOptions.
pub data Setting : Type 0 where
  text : Text → Setting
  flag : Bool → Setting
  other : Setting

pub record CompilerOptions : Type 0 where
  pub cache_prepare : Text
  pub field_order : Text
  pub remove_tail_drops : Bool
  pub dedup_flows : Bool
  pub optimize : Bool

abbrev assert_str_setting : Setting → Result Text
assert_str_setting (text s) = ok s
assert_str_setting _ = err assertion_error

abbrev assert_flag : Setting → Result Bool
assert_flag (flag b) = ok b
assert_flag _ = err assertion_error

unfoldable pub compiler_options :
    Setting → Setting → Setting → Setting → Setting → Result CompilerOptions
compiler_options cache_prepare field_order remove_tail_drops dedup_flows optimize = do
  c ← assert_str_setting cache_prepare
  f ← assert_str_setting field_order
  r ← assert_flag remove_tail_drops
  d ← assert_flag dedup_flows
  o ← assert_flag optimize
  ok (record {
    cache_prepare = c;
    field_order = f;
    remove_tail_drops = r;
    dedup_flows = d;
    optimize = o;
  })

unfoldable pub options_to_json : CompilerOptions → Json
options_to_json o = Json.obj (
    Json.field "cache_prepare" (Json.str o.cache_prepare) (
      Json.field "field_order" (Json.str o.field_order) (
        Json.field "remove_tail_drops" (Json.bool o.remove_tail_drops) (
          Json.field "dedup_flows" (Json.bool o.dedup_flows)
            (Json.field "optimize" (Json.bool o.optimize) Json.end)))))
