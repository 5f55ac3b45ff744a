-- ===== src/Netkat/Eval.antt =====
-- lib/Frenetic_NetKAT_Semantics.ml: what a policy does to a packet. The packets, the test of a
-- header and its assignment are parameters; a set of packets is a list, in the order in which the
-- evaluation meets them.
use frenetic.Base.{Bool, true, false, not, ◌&&◌, ◌||◌, List, [], ◌∷◌, ◌++◌, if◌then◌else◌}
use mathlib.Core.List.{flat_map}
use frenetic.Syntax.Ast.{HeaderAndValue}
use frenetic.Netkat.Ast.{Pred, Policy}

-- How packets answer tests and take assignments.
pub record Packets (P : Type 0) : Type 0 where
  pub holds : HeaderAndValue → P → Bool
  pub assign : HeaderAndValue → P → P

module _ {P : Type 0} (m : Packets P) where
  unfoldable pub eval_pred : P → Pred → Bool
  eval_pred pkt Pred.true = true
  eval_pred pkt Pred.false = false
  eval_pred pkt (Pred.test hv) = m.holds hv pkt
  eval_pred pkt (Pred.and p q) = eval_pred pkt p && eval_pred pkt q
  eval_pred pkt (Pred.or p q) = eval_pred pkt p || eval_pred pkt q
  eval_pred pkt (Pred.neg p) = not (eval_pred pkt p)

  unfoldable pub eval : P → Policy → List P
  unfolding eval_pred
  eval pkt (Policy.filter p) = if eval_pred pkt p then pkt ∷ [] else []
  eval pkt (Policy.mod' hv) = m.assign hv pkt ∷ []
  eval pkt (Policy.union p q) = eval pkt p ++ eval pkt q
  eval pkt (Policy.seq p q) = flat_map (λ pkt'. eval pkt' q) (eval pkt p)
