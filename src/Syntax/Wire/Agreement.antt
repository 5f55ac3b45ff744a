-- ===== src/Syntax/Wire/Agreement.antt =====
-- Both ends of the wire: `to_json` of lang/python/frenetic/syntax.py, the controller's reader and
-- its evaluation.
use frenetic.Base.{
  true, false, ◌≡◌, refl, [], ◌∷◌, some, ok, err, index_error, arith, Bool-cases, inl, inr, none,
  failure, if◌then◌else◌,
}
use frenetic.Json
use frenetic.Json.{Json, tag}
use frenetic.Syntax.Ast.{Pred, Policy, Policies}
use frenetic.Syntax.Print.{pred_to_json, set_port_to_json, policy_to_json, policies_to_json}
use frenetic.Syntax.Meaning.{holds, run}
use frenetic.Syntax.Wire.Lower.{
  lower_pred, lower, pred_in_range, in_range, has_ports, all_have_ports,
}
use frenetic.Syntax.Wire.Parse.{from_json_pred-pred_to_json, policy_of_json-policy_to_json}
use frenetic.Syntax.Wire.Keeps.{eval_pred-lower_pred, eval-lower}
use frenetic.Netkat.Ast as Netkat
use frenetic.Netkat.Eval.{Packets, eval_pred, eval}
use frenetic.Netkat.Read.{from_json_pred, policy_of_json}

-- For packets of any kind: a policy whose numbers fit the wire, whose addresses the controller can read
-- and whose SetPorts name a port is printed, and the controller reads the document as a policy that makes the same packets, in the
-- same order, of each packet.
pub eval-policy_of_json :
    {P : Type 0} (m : Packets P) (p : Policy)
    → in_range p ≡ true
    → has_ports p ≡ true
    → (j : Json) × (w : Netkat.Policy) × (policy_to_json p ≡ ok j)
      × (policy_of_json j ≡ some w)
      × ((pkt : P) → eval m pkt w ≡ run m pkt p)
eval-policy_of_json m p h k =
    let (j, e, r) = policy_of_json-policy_to_json p h k in
    (j, lower p, e, r, λ pkt. eval-lower m pkt p)

-- For packets of any kind: the controller reads the document of a predicate whose numbers fit the
-- wire, and whose addresses it can read, as a predicate that holds of the same packets.
pub eval_pred-from_json_pred :
    {P : Type 0} (m : Packets P) (p : Pred)
    → pred_in_range p ≡ true
    → (w : Netkat.Pred) × (from_json_pred (pred_to_json p) ≡ some w)
      × ((pkt : P) → eval_pred m pkt w ≡ holds m pkt p)
eval_pred-from_json_pred m p h =
    (lower_pred p, from_json_pred-pred_to_json p h, λ pkt. eval_pred-lower_pred m pkt p)

mutual
  unfolding policy_to_json has_ports set_port_to_json

  pub printed : (p : Policy) → has_ports p ≡ true → (j : Json) × (policy_to_json p ≡ ok j)
  printed (Policy.filter p) h = (_, refl)
  printed (Policy.mod' hv) h = (_, refl)
  printed (Policy.union ps) h =
      let (js, e) = all_printed ps h in
      (Json.obj2 "type" (tag "union") "pols" (Json.arr js), rw e refl)
  printed (Policy.seq ps) h =
      let (js, e) = all_printed ps h in
      (Json.obj2 "type" (tag "seq") "pols" (Json.arr js), rw e refl)
  printed (Policy.if_then_else p) h = printed p h
  printed (Policy.set_port []) h = cc
  printed (Policy.set_port (n ∷ [])) h = (_, refl)
  printed (Policy.set_port (n ∷ k ∷ ns)) h = (_, refl)
  printed (Policy.single_policy p) h = printed p h

  all_printed :
      (ps : Policies) → all_have_ports ps ≡ true → (js : Json.Items) × (policies_to_json ps ≡ ok js)
  all_printed Policies.nil h = (Json.nil, refl)
  all_printed (Policies.cons p ps) h =
      let (j, e) = printed p (ground arith) in
      let (js, f) = all_printed ps (ground arith) in (Json.cons j js, rw e (rw f refl))

mutual
  unfolding policy_to_json has_ports set_port_to_json

  refused : (p : Policy) → has_ports p ≡ false → policy_to_json p ≡ err index_error
  refused (Policy.filter p) h = cc
  refused (Policy.mod' hv) h = cc
  refused (Policy.union ps) h = rw (some_refused ps h) refl
  refused (Policy.seq ps) h = rw (some_refused ps h) refl
  refused (Policy.if_then_else p) h = refused p h
  refused (Policy.set_port []) h = refl
  refused (Policy.set_port (n ∷ ns)) h = cc
  refused (Policy.single_policy p) h = refused p h

  some_refused : (ps : Policies) → all_have_ports ps ≡ false → policies_to_json ps ≡ err index_error
  some_refused Policies.nil h = cc
  some_refused (Policies.cons p ps) h = elim (Bool-cases (has_ports p)) [
    | inl e ↦
        let (j, f) = printed p e in
        let rest : all_have_ports ps ≡ false = ground arith in rw f (rw (some_refused ps rest) refl)
    | inr e ↦ rw (refused p e) refl
  ]

-- A policy is printed exactly if each of its SetPorts names a port; otherwise `to_json` raises an
-- IndexError.
pub failure-policy_to_json :
    (p : Policy) → failure (policy_to_json p) ≡ (if has_ports p then none else some index_error)
failure-policy_to_json p = elim (Bool-cases (has_ports p)) [
  | inl e ↦ let (j, f) = printed p e in rw e (rw f refl)
  | inr e ↦ rw e (rw (refused p e) refl)
]
