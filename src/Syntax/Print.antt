-- ===== src/Syntax/Print.antt =====
-- lang/python/frenetic/syntax.py: `to_json` of header values, predicates and policies.
use frenetic.Base.{ℕ, List, [], ◌∷◌, map, Option, none, some, Result, ok, err, ◌>>=◌, index_error}
use frenetic.Base.Int.{ℤ}
use frenetic.Base.Text.{Text}
use frenetic.Base.Decimal.{show}
use frenetic.Json
use frenetic.Json.{Json, Items, tag, nat, obj1, obj2, obj3}
use frenetic.Syntax.Ast.{
  Place, physical, pipe, query, HeaderAndValue, switch, location, eth_src, eth_dst, vlan, vlan_pcp,
  eth_type, ip_proto, ip4_src, ip4_dst, tcp_src_port, tcp_dst_port, header, Pred, Preds, Policy,
  Policies,
}

-- Physical.to_json, Pipe.to_json and Query.to_json
unfoldable pub place_to_json : Place → Json
place_to_json (physical p) = obj2 "type" (tag "physical") "port" (nat p)
place_to_json (pipe s) = obj2 "type" (tag "pipe") "name" (Json.str s)
place_to_json (query s) = obj2 "type" (tag "query") "name" (Json.str s)

-- IP4Src.value_to_json and IP4Dst.value_to_json: a missing attribute `mask` is caught.
unfoldable pub ip4_to_json : Text → Option ℤ → Json
ip4_to_json s none = obj2 "addr" (Json.str s) "mask" (nat 32)
ip4_to_json s (some m) = obj2 "addr" (Json.str s) "mask" (Json.int m)

-- value_to_json of each header; a switch's number is sent as text.
unfoldable pub value_to_json : HeaderAndValue → Json
unfolding place_to_json ip4_to_json
value_to_json (switch v) = Json.str (show v)
value_to_json (location v) = place_to_json v
value_to_json (eth_src v) = Json.str v
value_to_json (eth_dst v) = Json.str v
value_to_json (vlan v) = nat v
value_to_json (vlan_pcp v) = nat v
value_to_json (eth_type v) = nat v
value_to_json (ip_proto v) = nat v
value_to_json (ip4_src v m) = ip4_to_json v m
value_to_json (ip4_dst v m) = ip4_to_json v m
value_to_json (tcp_src_port v) = nat v
value_to_json (tcp_dst_port v) = nat v

-- Test.to_json and Mod.to_json, which differ in their type.
abbrev pub hv_to_json : Json → HeaderAndValue → Json
hv_to_json type' hv = obj3 "type" type' "header" (tag (header hv)) "value" (value_to_json hv)

unfoldable mutual
  pub pred_to_json : Pred → Json
  pred_to_json (Pred.and ps) = obj2 "type" (tag "and") "preds" (Json.arr (preds_to_json ps))
  pred_to_json (Pred.or ps) = obj2 "type" (tag "or") "preds" (Json.arr (preds_to_json ps))
  pred_to_json (Pred.not p) = obj2 "type" (tag "neg") "pred" (pred_to_json p)
  pred_to_json Pred.id = obj1 "type" (tag "true")
  pred_to_json Pred.drop = obj1 "type" (tag "false")
  pred_to_json (Pred.test hv) = hv_to_json (tag "test") hv
  pred_to_json (Pred.multi_pred p) = pred_to_json p

  pub preds_to_json : Preds → Items
  preds_to_json Preds.nil = Json.nil
  preds_to_json (Preds.cons p ps) = Json.cons (pred_to_json p) (preds_to_json ps)

abbrev pub to_port : ℕ → Json
to_port p = hv_to_json (tag "mod") (location (physical p))

-- SetPort.to_json; `actions[0]` fails where there is no port.
unfoldable pub set_port_to_json : List ℕ → Result Json
set_port_to_json [] = err index_error
set_port_to_json (p ∷ []) = ok (to_port p)
set_port_to_json (p ∷ q ∷ ps) =
    ok (obj2 "type" (tag "union") "pols" (Json.arr (Json.items (map to_port (p ∷ q ∷ ps)))))

unfoldable mutual
  pub policy_to_json : Policy → Result Json
  policy_to_json (Policy.filter p) = ok (obj2 "type" (tag "filter") "pred" (pred_to_json p))
  policy_to_json (Policy.mod' hv) = ok (hv_to_json (tag "mod") hv)
  policy_to_json (Policy.union ps) =
      policies_to_json ps >>= λ js. ok (obj2 "type" (tag "union") "pols" (Json.arr js))
  policy_to_json (Policy.seq ps) =
      policies_to_json ps >>= λ js. ok (obj2 "type" (tag "seq") "pols" (Json.arr js))
  policy_to_json (Policy.if_then_else p) = policy_to_json p
  policy_to_json (Policy.set_port ps) = set_port_to_json ps
  policy_to_json (Policy.single_policy p) = policy_to_json p

  pub policies_to_json : Policies → Result Items
  policies_to_json Policies.nil = ok Json.nil
  policies_to_json (Policies.cons p ps) =
      policy_to_json p >>= λ j. policies_to_json ps >>= λ js. ok (Json.cons j js)
