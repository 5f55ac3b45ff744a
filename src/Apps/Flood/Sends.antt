-- ===== src/Apps/Flood/Sends.antt =====
-- lang/python/frenetic/examples/flood_switch.py: what the policy does to a packet.
use mathlib.Core.List.{flat_map}
use mathlib.Core.Path.{fun_ext}
use frenetic.Value.{atom}
use frenetic.Syntax.Sugar.Laws.{num, checked-all}
use frenetic.Base.{
  ℕ, Bool, true, false, ◌&&◌, ◌≡◌, refl, ap, ◌∙◌, List, [], ◌∷◌, map, any, all, ok, arith, ◌==◌,
  if◌then◌else◌, Bool-cases, inl, inr,
}
use frenetic.Netkat.Eval.{Packets}
use frenetic.Syntax.Ast as Ast
use frenetic.Syntax.Ast.{physical, location, Pred, Policy, policies}
use frenetic.Syntax.Build.{◌>>>◌, physical_init, switch_init, int_header}
use frenetic.Syntax.Choice.{run-filter}
use frenetic.Syntax.Meaning.{holds, run, run_union}
use frenetic.Syntax.Sugar.Loops.{checked, is_port, init_int_eq}
use frenetic.Syntax.Sugar.Tests.{port_eq, port_location, switch_eq}
use frenetic.Syntax.Sugar.Sets.{set_port}
use frenetic.Syntax.Unions.{AreUnique, run_union-map, only, flat_map-only, traverse-all}
use frenetic.Apps.Flood.Policy.{SwitchRef, other_ports, action, flood_or_drop, flood_switch_policy}

-- The packet is at the port of the switch.
abbrev pub IsOn : {P : Type 0} → Packets P → ℕ → ℕ → P → Type 0
IsOn m s p pkt =
    ((k : ℕ) → m.holds (Ast.switch k) pkt ≡ (k == s))
    × ((k : ℕ) → m.holds (location (physical k)) pkt ≡ (k == p))

-- The policy of one port.
abbrev pub sent : List ℕ → ℕ → Policy
sent ports src =
    Policy.filter (Pred.multi_pred (Pred.test (location (physical src))))
    >>> Policy.set_port (other_ports src ports)

pub all-other_ports :
    (src : ℕ) (ports : List ℕ)
    → all is_port ports ≡ true
    → all is_port (other_ports src ports) ≡ true
all-other_ports src [] h = refl
all-other_ports src (p ∷ ps) h = elim (Bool-cases (src == p)) [
  | inl e ↦ rw e (all-other_ports src ps (ground arith))
  | inr e ↦ rw e (let r = all-other_ports src ps (ground arith) in ground arith)
]

action-sent :
    (ports : List ℕ) (src : ℕ)
    → all is_port ports ≡ true
    → is_port src ≡ true
    → action ports src ≡ ok (sent ports src)
unfolding action port_eq set_port port_location physical_init checked
action-sent ports src h k =
    rw k (rw (checked-all is_port (other_ports src ports)) (rw (all-other_ports src ports h) refl))

-- A loop over the ports makes a union, also if there is none.
run-flood_or_drop :
    {P : Type 0} (m : Packets P) (pkt : P) (ps : List Policy)
    → run m pkt (flood_or_drop ps) ≡ run_union m pkt (policies ps)
unfolding run holds
run-flood_or_drop m pkt [] = refl
run-flood_or_drop m pkt (p ∷ ps) = refl

pub switch_eq-num :
    (n : ℕ) → switch_eq (atom (num n) ∷ []) ≡ ok (Pred.multi_pred (Pred.test (Ast.switch n)))
unfolding switch_eq init_int_eq checked switch_init int_header
switch_eq-num n = refl

module _ {P : Type 0} (m : Packets P) where
  -- What a packet at a port becomes.
  abbrev pub flooded : P → List ℕ → ℕ → List P
  flooded pkt ports p = map (λ l. m.assign (location (physical l)) pkt) (other_ports p ports)

  pub run-sent :
      (s p : ℕ) (pkt : P)
      → IsOn m s p pkt
      → (ports : List ℕ) (src : ℕ) → run m pkt (sent ports src) ≡ only (flooded pkt ports) p src
  unfolding run holds
  run-sent s p pkt at ports src =
      run-filter m pkt (Pred.multi_pred (Pred.test (location (physical src))))
        (Policy.set_port (other_ports src ports))
      ∙ rw (at.1 src) refl

  pub run-actions :
      (s p : ℕ) (pkt : P)
      → IsOn m s p pkt
      → (ports : List ℕ) → AreUnique ports
      → run_union m pkt (policies (map (sent ports) ports))
        ≡ (if any (λ q. q == p) ports then flooded pkt ports p else [])
  run-actions s p pkt at ports u =
      run_union-map m pkt (sent ports) ports
      ∙ ap (λ f. flat_map f ports) (fun_ext (run-sent s p pkt at ports))
      ∙ flat_map-only (flooded pkt ports) p ports u

  -- A filter for a switch lets a packet through to a policy, or drops it.
  pub run-at_switch :
      (s p : ℕ) (pkt : P)
      → IsOn m s p pkt
      → (n : ℕ) (q : Policy)
      → run m pkt (Policy.filter (Pred.multi_pred (Pred.test (Ast.switch n))) >>> q)
        ≡ (if n == s then run m pkt q else [])
  unfolding holds
  run-at_switch s p pkt at n q =
      run-filter m pkt (Pred.multi_pred (Pred.test (Ast.switch n))) q ∙ rw (at.0 n) refl

  -- For a switch with valid ports, none of them twice: flood_switch_policy returns a policy that sends a
  -- packet on a port of the switch out of each other port, once and in their order, and that drops a
  -- packet on another port or at another switch.
  pub run-flood_switch_policy :
      (switch : SwitchRef)
      → all is_port switch.ports ≡ true
      → AreUnique switch.ports
      → (pol : Policy) × (flood_switch_policy switch ≡ ok pol)
        × ((s p : ℕ) (pkt : P)
            → IsOn m s p pkt
            → run m pkt pol ≡ (
                if switch.id == s && any (λ q. q == p) switch.ports
                then map (λ l. m.assign (location (physical l)) pkt) (other_ports p switch.ports)
                else []))
  unfolding flood_switch_policy
  run-flood_switch_policy switch h u = (
    Policy.filter (Pred.multi_pred (Pred.test (Ast.switch switch.id)))
        >>> flood_or_drop (map (sent switch.ports) switch.ports),
    rw
        (traverse-all (action switch.ports) (sent switch.ports) is_port
          (λ n k. action-sent switch.ports n h k) switch.ports h)
        (rw (switch_eq-num switch.id) refl),
    λ s p pkt at.
        run-at_switch s p pkt at switch.id (flood_or_drop (map (sent switch.ports) switch.ports))
        ∙ rw (run-flood_or_drop m pkt (map (sent switch.ports) switch.ports))
            (rw (run-actions s p pkt at switch.ports u) (nested (switch.id == s) _ _)),
  )
    where
      nested :
          (a b : Bool) (out : List P)
          → (if a then (if b then out else []) else []) ≡ (if a && b then out else [])
      nested true b out = refl
      nested false b out = refl
