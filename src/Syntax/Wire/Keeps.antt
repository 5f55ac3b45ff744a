-- ===== src/Syntax/Wire/Keeps.antt =====
-- The controller's policy that stands for one of lang/python/frenetic/syntax.py has its meaning.
use mathlib.Core.List.{flat_map, append-nil}
use mathlib.Core.Path.{fun_ext, ap₂}
use frenetic.Netkat.Ast as Netkat
use frenetic.Base.{ℕ, ◌≡◌, refl, ap, ◌∙◌, sym, not, List, [], ◌∷◌, ◌++◌, map, all, any}
use frenetic.Syntax.Ast.{physical, location, Pred, Preds, Policy, Policies}
use frenetic.Syntax.Meaning.{holds, holds_all, holds_any, run, run_union, run_seq}
use frenetic.Syntax.Wire.Lower.{lower_pred, lower_preds, lower_port, lower_ports, lower, lower_list}
use frenetic.Netkat.Eval.{Packets, eval_pred, eval}
use frenetic.Netkat.Laws.{
  flat_map-pure, flat_map_assoc, eval_seq, eval_pred-mk_big_and, eval_pred-mk_big_or,
  eval-mk_big_union, eval-mk_big_seq,
}

module _ {P : Type 0} (m : Packets P) where
  mutual
    unfolding lower_pred holds eval_pred

    keeps_pred : (pkt : P) (p : Pred) → eval_pred m pkt (lower_pred p) ≡ holds m pkt p
    keeps_pred pkt (Pred.and ps) = eval_pred-mk_big_and m pkt (lower_preds ps) ∙ keeps_all pkt ps
    keeps_pred pkt (Pred.or ps) = eval_pred-mk_big_or m pkt (lower_preds ps) ∙ keeps_any pkt ps
    keeps_pred pkt (Pred.not p) = ap not (keeps_pred pkt p)
    keeps_pred pkt Pred.id = refl
    keeps_pred pkt Pred.drop = refl
    keeps_pred pkt (Pred.test hv) = refl
    keeps_pred pkt (Pred.multi_pred p) = keeps_pred pkt p

    keeps_all : (pkt : P) (ps : Preds) → all (eval_pred m pkt) (lower_preds ps) ≡ holds_all m pkt ps
    keeps_all pkt Preds.nil = refl
    keeps_all pkt (Preds.cons p ps) = cc (keeps_pred pkt p, keeps_all pkt ps)

    keeps_any : (pkt : P) (ps : Preds) → any (eval_pred m pkt) (lower_preds ps) ≡ holds_any m pkt ps
    keeps_any pkt Preds.nil = refl
    keeps_any pkt (Preds.cons p ps) = cc (keeps_pred pkt p, keeps_any pkt ps)

  -- A predicate and the controller's predicate for it hold of the same packets.
  pub eval_pred-lower_pred : (pkt : P) (p : Pred) → eval_pred m pkt (lower_pred p) ≡ holds m pkt p
  eval_pred-lower_pred = keeps_pred

  eval-ports :
      (pkt : P) (ns : List ℕ)
      → flat_map (eval m pkt) (map lower_port ns)
        ≡ map (λ n. m.assign (location (physical n)) pkt) ns
  unfolding flat_map eval
  eval-ports pkt [] = refl
  eval-ports pkt (n ∷ ns) = ap (◌∷◌ (m.assign (location (physical n)) pkt)) (eval-ports pkt ns)

  keeps_ports :
      (pkt : P) (ns : List ℕ)
      → eval m pkt (lower_ports ns) ≡ map (λ n. m.assign (location (physical n)) pkt) ns
  unfolding lower_ports
  keeps_ports pkt [] = unfold eval in refl
  keeps_ports pkt (n ∷ []) = unfold eval in refl
  keeps_ports pkt (n ∷ k ∷ ns) =
      eval-mk_big_union m pkt (map lower_port (n ∷ k ∷ ns)) ∙ eval-ports pkt (n ∷ k ∷ ns)

  eval_seq-flat_map :
      (pkts : List P) (p : Policy) (ps : Policies)
      → ((pkts : List P)
          → eval_seq m pkts (lower_list ps) ≡ flat_map (λ pkt. run_seq m pkt ps) pkts)
      → ((pkt : P) → eval m pkt (lower p) ≡ run m pkt p)
      → eval_seq m (flat_map (λ pkt. eval m pkt (lower p)) pkts) (lower_list ps)
        ≡ flat_map (λ pkt. flat_map (λ pkt'. run_seq m pkt' ps) (run m pkt p)) pkts
  eval_seq-flat_map pkts p ps h k =
      h _ ∙ rw (fun_ext k) (flat_map_assoc (λ pkt. run m pkt p) (λ pkt. run_seq m pkt ps) pkts)

  union_step :
      (pkt : P) (w : Netkat.Policy) (ws : List Netkat.Policy)
      → flat_map (eval m pkt) (w ∷ ws) ≡ eval m pkt w ++ flat_map (eval m pkt) ws
  unfolding flat_map
  union_step pkt w ws = refl

  union_nil : (pkt : P) → flat_map (eval m pkt) [] ≡ []
  unfolding flat_map
  union_nil pkt = refl

  singleton : (pkt : P) (f : P → List P) → flat_map f (pkt ∷ []) ≡ f pkt
  unfolding flat_map
  singleton pkt f = append-nil (f pkt)

  mutual
    unfolding lower run eval eval_seq

    keeps : (pkt : P) (p : Policy) → eval m pkt (lower p) ≡ run m pkt p
    keeps pkt (Policy.filter p) = rw (keeps_pred pkt p) refl
    keeps pkt (Policy.mod' hv) = refl
    keeps pkt (Policy.union ps) = eval-mk_big_union m pkt (lower_list ps) ∙ keeps_union pkt ps
    keeps pkt (Policy.seq ps) =
        eval-mk_big_seq m pkt (lower_list ps)
        ∙ keeps_seq (pkt ∷ []) ps
        ∙ singleton pkt (λ pkt'. run_seq m pkt' ps)
    keeps pkt (Policy.if_then_else p) = keeps pkt p
    keeps pkt (Policy.set_port ns) = keeps_ports pkt ns
    keeps pkt (Policy.single_policy p) = keeps pkt p

    keeps_union :
        (pkt : P) (ps : Policies) → flat_map (eval m pkt) (lower_list ps) ≡ run_union m pkt ps
    keeps_union pkt Policies.nil = union_nil pkt
    keeps_union pkt (Policies.cons p ps) =
        union_step pkt (lower p) (lower_list ps) ∙ ap₂ ◌++◌ (keeps pkt p) (keeps_union pkt ps)

    keeps_seq :
        (pkts : List P) (ps : Policies)
        → eval_seq m pkts (lower_list ps) ≡ flat_map (λ pkt. run_seq m pkt ps) pkts
    keeps_seq pkts Policies.nil = sym (flat_map-pure pkts)
    keeps_seq pkts (Policies.cons p ps) =
        eval_seq-flat_map pkts p ps (λ l. keeps_seq l ps) (λ pkt. keeps pkt p)

  -- A policy and the controller's policy for it make the same packets of each packet.
  pub eval-lower : (pkt : P) (p : Policy) → eval m pkt (lower p) ≡ run m pkt p
  eval-lower = keeps
