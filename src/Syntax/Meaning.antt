-- ===== src/Syntax/Meaning.antt =====
-- What the predicates and policies of lang/python/frenetic/syntax.py mean, on the client's own
-- classes: a specification, for packets that answer tests and take assignments.
use mathlib.Core.List.{flat_map}
use frenetic.Base.{
  Bool, true, false, not, ◌&&◌, ◌||◌, List, [], ◌∷◌, ◌++◌, none, some, map, if◌then◌else◌,
}
use frenetic.Base.Int.{pos}
use frenetic.Syntax.Ast.{
  physical, HeaderAndValue, location, ip4_src, ip4_dst, Pred, Preds, Policy, Policies,
}
use frenetic.Netkat.Eval.{Packets}

-- A header with its mask filled in: without one an address stands for itself alone.
abbrev pub full : HeaderAndValue → HeaderAndValue
full (ip4_src s none) = ip4_src s (some (pos 32))
full (ip4_dst s none) = ip4_dst s (some (pos 32))
full hv = hv

module _ {P : Type 0} (m : Packets P) where
  unfoldable mutual
    pub holds : P → Pred → Bool
    holds pkt (Pred.and ps) = holds_all pkt ps
    holds pkt (Pred.or ps) = holds_any pkt ps
    holds pkt (Pred.not p) = not (holds pkt p)
    holds pkt Pred.id = true
    holds pkt Pred.drop = false
    holds pkt (Pred.test hv) = m.holds (full hv) pkt
    holds pkt (Pred.multi_pred p) = holds pkt p

    pub holds_all : P → Preds → Bool
    holds_all pkt Preds.nil = true
    holds_all pkt (Preds.cons p ps) = holds pkt p && holds_all pkt ps

    pub holds_any : P → Preds → Bool
    holds_any pkt Preds.nil = false
    holds_any pkt (Preds.cons p ps) = holds pkt p || holds_any pkt ps

  -- The packets that a policy makes of one packet, in order.
  unfoldable mutual
    pub run : P → Policy → List P
    run pkt (Policy.filter p) = if holds pkt p then pkt ∷ [] else []
    run pkt (Policy.mod' hv) = m.assign (full hv) pkt ∷ []
    run pkt (Policy.union ps) = run_union pkt ps
    run pkt (Policy.seq ps) = run_seq pkt ps
    run pkt (Policy.if_then_else p) = run pkt p
    run pkt (Policy.set_port ns) = map (λ n. m.assign (location (physical n)) pkt) ns
    run pkt (Policy.single_policy p) = run pkt p

    pub run_union : P → Policies → List P
    run_union pkt Policies.nil = []
    run_union pkt (Policies.cons p ps) = run pkt p ++ run_union pkt ps

    pub run_seq : P → Policies → List P
    run_seq pkt Policies.nil = pkt ∷ []
    run_seq pkt (Policies.cons p ps) = flat_map (λ pkt'. run_seq pkt' ps) (run pkt p)
