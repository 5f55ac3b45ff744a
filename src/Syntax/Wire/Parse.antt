-- ===== src/Syntax/Wire/Parse.antt =====
-- The controller's reader on the documents that `to_json` of lang/python/frenetic/syntax.py builds.
use frenetic.Base.{ℕ, ◌≡◌, refl, true, List, [], ◌∷◌, some, arith, all, map, ltb, ◌^◌, ok}
use frenetic.Json
use frenetic.Json.{Json, tag}
use frenetic.Syntax.Ast.{physical, HeaderAndValue, location, Pred, Preds, Policy, Policies}
use frenetic.Syntax.Print.{
  hv_to_json, pred_to_json, preds_to_json, to_port, set_port_to_json, policy_to_json,
  policies_to_json,
}
use frenetic.Syntax.Meaning.{full}
use frenetic.Netkat.Smart.{mk_big_union, mk_big_seq}
use frenetic.Syntax.Wire.Lower.{
  hv_in_range, lower_pred, lower_preds, lower_port, lower_ports, lower, lower_list, pred_in_range,
  preds_in_range, in_range, all_in_range, has_ports, all_have_ports,
}
use frenetic.Syntax.Wire.Header.{from_json_header_val-hv_to_json}
use frenetic.Netkat.Ast as Netkat
use frenetic.Netkat.Read.{
  pred_of_type, from_json_pred, from_json_preds, policy_of_type, policy_of_json, policies_of_json,
}

mutual
  unfolding from_json_pred pred_of_type pred_to_json lower_pred pred_in_range

  read_pred :
      (p : Pred) → pred_in_range p ≡ true → from_json_pred (pred_to_json p) ≡ some (lower_pred p)
  read_pred (Pred.and ps) h = rw (read_preds ps h) refl
  read_pred (Pred.or ps) h = rw (read_preds ps h) refl
  read_pred (Pred.not p) h = rw (read_pred p h) refl
  read_pred Pred.id h = refl
  read_pred Pred.drop h = refl
  read_pred (Pred.test hv) h = rw (from_json_header_val-hv_to_json (tag "test") hv h) refl
  read_pred (Pred.multi_pred p) h = read_pred p h

  read_preds :
      (ps : Preds)
      → preds_in_range ps ≡ true
      → from_json_preds (preds_to_json ps) ≡ some (lower_preds ps)
  read_preds Preds.nil h = refl
  read_preds (Preds.cons p ps) h = ground (arith, read_pred p, read_preds ps)

-- A printed predicate is read back as the one that stands for it.
pub from_json_pred-pred_to_json :
    (p : Pred) → pred_in_range p ≡ true → from_json_pred (pred_to_json p) ≡ some (lower_pred p)
from_json_pred-pred_to_json p h = read_pred p h

-- The readers of lists and of the three kinds of members, one step each.
policies_of_json-nil : policies_of_json Json.nil ≡ some []
unfolding policies_of_json
policies_of_json-nil = refl

policies_of_json-cons :
    (j : Json) (js : Json.Items) {w : Netkat.Policy} {ws : List Netkat.Policy}
    → policy_of_json j ≡ some w
    → policies_of_json js ≡ some ws
    → policies_of_json (Json.cons j js) ≡ some (w ∷ ws)
unfolding policies_of_json
policies_of_json-cons j js e f = rw e (rw f refl)

read_filter :
    (j : Json) {w : Netkat.Pred}
    → from_json_pred j ≡ some w
    → policy_of_json (Json.obj2 "type" (tag "filter") "pred" j) ≡ some (Netkat.Policy.filter w)
unfolding policy_of_json policy_of_type from_json_pred
read_filter j e = rw e refl

read_union :
    (js : Json.Items) {ws : List Netkat.Policy}
    → policies_of_json js ≡ some ws
    → policy_of_json (Json.obj2 "type" (tag "union") "pols" (Json.arr js)) ≡ some (mk_big_union ws)
unfolding policy_of_json policy_of_type
read_union js e = rw e refl

read_seq :
    (js : Json.Items) {ws : List Netkat.Policy}
    → policies_of_json js ≡ some ws
    → policy_of_json (Json.obj2 "type" (tag "seq") "pols" (Json.arr js)) ≡ some (mk_big_seq ws)
unfolding policy_of_json policy_of_type
read_seq js e = rw e refl

read_mod :
    (hv : HeaderAndValue)
    → hv_in_range hv ≡ true
    → policy_of_json (hv_to_json (tag "mod") hv) ≡ some (Netkat.Policy.mod' (full hv))
unfolding policy_of_json policy_of_type
read_mod hv h = rw (from_json_header_val-hv_to_json (tag "mod") hv h) refl

read_ports :
    (ns : List ℕ)
    → all (λ n. ltb n (2 ^ 32)) ns ≡ true
    → policies_of_json (Json.items (map to_port ns)) ≡ some (map lower_port ns)
read_ports [] h = policies_of_json-nil
read_ports (n ∷ ns) h =
    policies_of_json-cons _ _ (read_mod (location (physical n)) (ground arith))
      (read_ports ns (ground arith))

read_set_port :
    (ns : List ℕ)
    → in_range (Policy.set_port ns) ≡ true
    → has_ports (Policy.set_port ns) ≡ true
    → (j : Json) × (set_port_to_json ns ≡ ok j) × (policy_of_json j ≡ some (lower_ports ns))
unfolding set_port_to_json lower_ports in_range has_ports
read_set_port [] h k = cc
read_set_port (n ∷ []) h k = (to_port n, refl, read_mod (location (physical n)) (ground arith))
read_set_port (n ∷ i ∷ ns) h k = (_, refl, read_union _ (read_ports (n ∷ i ∷ ns) h))

mutual
  unfolding policy_to_json lower in_range has_ports

  read_policy :
      (p : Policy)
      → in_range p ≡ true
      → has_ports p ≡ true
      → (j : Json) × (policy_to_json p ≡ ok j) × (policy_of_json j ≡ some (lower p))
  read_policy (Policy.filter p) h k = (_, refl, read_filter _ (from_json_pred-pred_to_json p h))
  read_policy (Policy.mod' hv) h k = (_, refl, read_mod hv h)
  read_policy (Policy.union ps) h k =
      let (js, e, r) = read_policies ps h k in
      (Json.obj2 "type" (tag "union") "pols" (Json.arr js), rw e refl, read_union js r)
  read_policy (Policy.seq ps) h k =
      let (js, e, r) = read_policies ps h k in
      (Json.obj2 "type" (tag "seq") "pols" (Json.arr js), rw e refl, read_seq js r)
  read_policy (Policy.if_then_else p) h k = read_policy p h k
  read_policy (Policy.set_port ns) h k = read_set_port ns h k
  read_policy (Policy.single_policy p) h k = read_policy p h k

  read_policies :
      (ps : Policies)
      → all_in_range ps ≡ true
      → all_have_ports ps ≡ true
      → (js : Json.Items) × (policies_to_json ps ≡ ok js)
        × (policies_of_json js ≡ some (lower_list ps))
  read_policies Policies.nil h k = (Json.nil, refl, policies_of_json-nil)
  read_policies (Policies.cons p ps) h k =
      let (j, e, r) = read_policy p (ground arith) (ground arith) in
      let (js, f, s) = read_policies ps (ground arith) (ground arith) in
      (Json.cons j js, rw e (rw f refl), policies_of_json-cons j js r s)

-- A printed policy is read back as the one that stands for it.
pub policy_of_json-policy_to_json :
    (p : Policy)
    → in_range p ≡ true
    → has_ports p ≡ true
    → (j : Json) × (policy_to_json p ≡ ok j) × (policy_of_json j ≡ some (lower p))
policy_of_json-policy_to_json p h k = read_policy p h k
