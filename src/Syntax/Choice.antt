-- ===== src/Syntax/Choice.antt =====
-- lang/python/frenetic/syntax.py: Pred.ite and IfThenElse are a choice.
use mathlib.Core.List.{flat_map, append-nil}
use frenetic.Base.{
  Bool, true, false, not, ◌≡◌, refl, ap, ◌∙◌, List, [], ◌++◌, if◌then◌else◌, Bool-cases, inl, inr,
}
use frenetic.Netkat.Eval.{Packets}
use frenetic.Netkat.Laws.{flat_map-pure}
use frenetic.Syntax.Ast.{Pred, Policy}
use frenetic.Syntax.Build.{pred_ite, if_then_else, ◌>>>◌, ◌⊔◌, ~◌}
use frenetic.Syntax.Meaning.{holds, run}

module _ {P : Type 0} (m : Packets P) (pkt : P) where
  -- A filter before a policy lets a packet through to it, or drops it.
  pub run-filter :
      (p : Pred) (q : Policy)
      → run m pkt (Policy.filter p >>> q) ≡ (if holds m pkt p then run m pkt q else [])
  unfolding run flat_map
  run-filter p q = elim (Bool-cases (holds m pkt p)) [
    | inl e ↦ rw e (append-nil _ ∙ flat_map-pure (run m pkt q))
    | inr e ↦ rw e refl
  ]

  run-or : (p q : Policy) → run m pkt (p ⊔ q) ≡ run m pkt p ++ run m pkt q
  unfolding run
  run-or p q = ap (λ l. run m pkt p ++ l) (append-nil _)

  holds-not : (p : Pred) → holds m pkt (~◌ p) ≡ not (holds m pkt p)
  unfolding holds
  holds-not p = refl

  run-wrap : (p : Policy) → run m pkt (Policy.if_then_else p) ≡ run m pkt p
  unfolding run
  run-wrap p = refl

  -- IfThenElse does to a packet what the one or the other policy does, by the predicate.
  pub run-if_then_else :
      (p : Pred) (t e : Policy)
      → run m pkt (if_then_else p t e) ≡ (if holds m pkt p then run m pkt t else run m pkt e)
  run-if_then_else p t e =
      run-wrap (pred_ite p t e)
      ∙ run-or (Policy.filter p >>> t) (Policy.filter (~◌ p) >>> e)
      ∙ rw (run-filter p t) (
          rw (run-filter (~◌ p) e)
            (rw (holds-not p) (choose (holds m pkt p) (run m pkt t) (run m pkt e))))
    where
      choose :
          (b : Bool) (xs ys : List P)
          → (if b then xs else []) ++ (if not b then ys else []) ≡ (if b then xs else ys)
      choose true xs ys = append-nil xs
      choose false xs ys = refl
