-- ===== src/Netkat/Read.antt =====
-- lib/Frenetic_NetKAT_Json.ml: the controller's reader of policies. `none` stands for an exception.
-- A header keeps the text of its address, in the place of the number that the controller reads from it; a
-- text that it cannot read is refused. The recursion goes down the document, so a member that is read as a
-- predicate is found and read by one function.
use text.Mathlib.Text.{◌==◌ as str_eq}
use frenetic.Base.{ℕ, List, [], ◌∷◌, Option, none, some, ◌%◌, ◌^◌, ltb, all, if◌then◌else◌}
use frenetic.Base.Int.{ℤ, pos, negsuc}
use frenetic.Base.Text.{Text, codes, text_eq}
use frenetic.Base.Decimal.{parse_int, is_digit}
use frenetic.Json
use frenetic.Json.{Json, Items, Fields, member}
use frenetic.Syntax.Ast.{
  Place, physical, pipe, query, HeaderAndValue, switch, location, eth_src, eth_dst, vlan, vlan_pcp,
  eth_type, ip_proto, ip4_src, ip4_dst, tcp_src_port, tcp_dst_port,
}
use frenetic.Netkat.Ast.{Pred, Policy}
pub use frenetic.Netkat.Address.{◌>>=◌}
use frenetic.Netkat.Address.{mac_of_string, ip_of_string}
use frenetic.Netkat.Smart.{mk_big_and, mk_big_or, mk_big_union, mk_big_seq}

abbrev pub to_string : Json → Option Text
to_string (Json.str s) = some s
to_string _ = none

-- An `int` has 63 bits, with the sign; the parser makes no `int` of a larger number. Negative numbers,
-- which the client never sends for these headers, are refused.
abbrev pub to_int : Json → Option ℕ
to_int (Json.int (pos n)) = if ltb n (2 ^ 62) then some n else none
to_int _ = none

-- A decimal text without a sign, within 63 bits; other forms of a number are never sent.
abbrev below_int64 : ℤ → Option ℕ
below_int64 (pos n) = if ltb n (2 ^ 63) then some n else none
below_int64 (negsuc n) = none

int64_of_string : Text → Option ℕ
unfolding is_digit
int64_of_string s = if all is_digit s then parse_int s >>= below_int64 else none

-- Int32.of_int keeps the low 32 bits.
abbrev int_to_uint32 : ℕ → ℕ
int_to_uint32 n = n % 2 ^ 32

-- A mask that is missing or null is 32.
abbrev mask_of : Option Json → Option ℤ
mask_of none = some (pos 32)
mask_of (some Json.null) = some (pos 32)
mask_of (some j) = to_int j >>= λ m. some (pos (int_to_uint32 m))

from_json_mac : (Text → HeaderAndValue) → Json → Option HeaderAndValue
from_json_mac klass j = do text ← to_string j; number ← mac_of_string text; some (klass text)

from_json_ip : (Text → Option ℤ → HeaderAndValue) → Json → Option HeaderAndValue
from_json_ip klass j = do
  addr ← member "addr" j
  text ← to_string addr
  number ← ip_of_string text
  mask ← mask_of (member "mask" j)
  some (klass text (some mask))

place_of_type : Text → Json → Option Place
unfolding text_eq
place_of_type t j =
    if text_eq t (codes "physical")
    then (do v ← member "port" j; n ← to_int v; some (physical (int_to_uint32 n)))
    else if text_eq t (codes "pipe")
    then (do v ← member "name" j; s ← to_string v; some (pipe s))
    else if text_eq t (codes "query")
    then (do v ← member "name" j; s ← to_string v; some (query s))
    else none

from_json_place : Json → Option Place
unfolding place_of_type
from_json_place j = do v ← member "type" j; t ← to_string v; place_of_type t j

header_of : Text → Json → Option HeaderAndValue
unfolding text_eq from_json_mac from_json_ip from_json_place int64_of_string
header_of h v =
    if text_eq h (codes "switch")
    then (do s ← to_string v; n ← int64_of_string s; some (switch n))
    else if text_eq h (codes "location")
    then (do l ← from_json_place v; some (location l))
    else if text_eq h (codes "ethsrc")
    then from_json_mac eth_src v
    else if text_eq h (codes "ethdst")
    then from_json_mac eth_dst v
    else if text_eq h (codes "vlan")
    then (do n ← to_int v; some (vlan n))
    else if text_eq h (codes "vlanpcp")
    then (do n ← to_int v; some (vlan_pcp n))
    else if text_eq h (codes "ethtype")
    then (do n ← to_int v; some (eth_type n))
    else if text_eq h (codes "ipproto")
    then (do n ← to_int v; some (ip_proto n))
    else if text_eq h (codes "ip4src")
    then from_json_ip ip4_src v
    else if text_eq h (codes "ip4dst")
    then from_json_ip ip4_dst v
    else if text_eq h (codes "tcpsrcport")
    then (do n ← to_int v; some (tcp_src_port n))
    else if text_eq h (codes "tcpdstport")
    then (do n ← to_int v; some (tcp_dst_port n))
    else none

unfoldable pub from_json_header_val : Json → Option HeaderAndValue
unfolding header_of
from_json_header_val j = do
  value ← member "value" j
  h ← member "header" j
  name ← to_string h
  header_of name value

abbrev pub type_of : Json → Option Text
type_of j = member "type" j >>= to_string

-- The cases of from_json_pred, with the members that they read.
unfoldable pub pred_of_type :
    Text → Option HeaderAndValue → Option (List Pred) → Option Pred → Option Pred
unfolding text_eq mk_big_and mk_big_or
pred_of_type t hv ps p =
    if text_eq t (codes "true")
    then some Pred.true
    else if text_eq t (codes "false")
    then some Pred.false
    else if text_eq t (codes "test")
    then (hv >>= λ h. some (Pred.test h))
    else if text_eq t (codes "and")
    then (ps >>= λ l. some (mk_big_and l))
    else if text_eq t (codes "or")
    then (ps >>= λ l. some (mk_big_or l))
    else if text_eq t (codes "neg")
    then (p >>= λ q. some (Pred.neg q))
    else none

unfoldable mutual
  pub from_json_pred : Json → Option Pred
  from_json_pred (Json.obj fs) = type_of (Json.obj fs) >>= λ t.
      pred_of_type t (from_json_header_val (Json.obj fs)) (preds_at fs) (pred_at fs)
  from_json_pred _ = none

  -- `json |> member "preds" |> to_list |> List.map ~f:from_json_pred`
  pub preds_at : Fields → Option (List Pred)
  preds_at Json.end = none
  preds_at (Json.field k v fs) = if str_eq k "preds" then preds_of v else preds_at fs

  pub preds_of : Json → Option (List Pred)
  preds_of (Json.arr js) = from_json_preds js
  preds_of _ = none

  pub from_json_preds : Items → Option (List Pred)
  from_json_preds Json.nil = some []
  from_json_preds (Json.cons j js) =
      from_json_pred j >>= λ p. from_json_preds js >>= λ ps. some (p ∷ ps)

  -- `json |> member "pred" |> from_json_pred`
  pub pred_at : Fields → Option Pred
  pred_at Json.end = none
  pred_at (Json.field k v fs) = if str_eq k "pred" then from_json_pred v else pred_at fs

-- The cases of policy_of_json; "star" and "link", which no client object prints, are left out.
unfoldable pub policy_of_type :
    Text → Option HeaderAndValue → Option (List Policy) → Option Pred → Option Policy
unfolding text_eq mk_big_union mk_big_seq
policy_of_type t hv ps p =
    if text_eq t (codes "filter")
    then (p >>= λ q. some (Policy.filter q))
    else if text_eq t (codes "mod")
    then (hv >>= λ h. some (Policy.mod' h))
    else if text_eq t (codes "union")
    then (ps >>= λ l. some (mk_big_union l))
    else if text_eq t (codes "seq")
    then (ps >>= λ l. some (mk_big_seq l))
    else none

unfoldable mutual
  pub policy_of_json : Json → Option Policy
  policy_of_json (Json.obj fs) = type_of (Json.obj fs) >>= λ t.
      policy_of_type t (from_json_header_val (Json.obj fs)) (policies_at fs) (pred_at fs)
  policy_of_json _ = none

  pub policies_at : Fields → Option (List Policy)
  policies_at Json.end = none
  policies_at (Json.field k v fs) = if str_eq k "pols" then policies_of v else policies_at fs

  pub policies_of : Json → Option (List Policy)
  policies_of (Json.arr js) = policies_of_json js
  policies_of _ = none

  pub policies_of_json : Items → Option (List Policy)
  policies_of_json Json.nil = some []
  policies_of_json (Json.cons j js) =
      policy_of_json j >>= λ p. policies_of_json js >>= λ ps. some (p ∷ ps)
