-- ===== src/Apps/Repeater/Sends.antt =====
-- lang/python/frenetic/examples/repeater.py: what the policy does to a packet.
use mathlib.Core.List.{flat_map}
use mathlib.Core.Path.{fun_ext}
use frenetic.Base.{
  ℕ, true, false, ◌≡◌, refl, ap, ◌∙◌, List, [], ◌∷◌, map, Option, none, some, any, all, All,
  All-map, Result, ok, traverse, arith, ◌==◌, ==_refl, if◌then◌else◌, Bool-cases, inl, inr,
}
use frenetic.Netkat.Eval.{Packets}
use frenetic.Syntax.Ast as Ast
use frenetic.Syntax.Ast.{physical, location, Pred, Policy, policies}
use frenetic.Syntax.Build.{◌>>>◌, physical_init}
use frenetic.Syntax.Meaning.{run}
use frenetic.Syntax.Sugar.Loops.{checked, is_port}
use frenetic.Syntax.Sugar.Laws.{checked-all}
use frenetic.Syntax.Sugar.Sets.{set_port}
use frenetic.Syntax.Sugar.Tests.{port_eq, port_location}
use frenetic.Syntax.Unions.{AreUnique, run_union-map, only, flat_map-only, traverse-all}
use frenetic.Apps.Learning.Dict.{get}
use frenetic.Apps.Flood.Policy.{other_ports}
use frenetic.Apps.Flood.Sends.{
  IsOn, sent, all-other_ports, switch_eq-num, run-actions, run-at_switch,
}
use frenetic.Apps.Repeater.State.{Topo, keys, port_policy, sw_policy, policy}

-- The ports of a switch are port numbers, and none is there twice.
abbrev pub ArePorts : List ℕ → Type 0
ArePorts ports = (all is_port ports ≡ true) × AreUnique ports

-- No switch is there twice, and each has such ports.
pub record IsValid (topo : Topo) : Type 0 where
  pub unique : AreUnique (keys topo)
  pub ports : All (λ e. ArePorts e.1) topo

-- The ports of a switch that may be missing.
abbrev pub ports_at : Option (List ℕ) → List ℕ
ports_at none = []
ports_at (some ports) = ports

port_policy-sent :
    (ports : List ℕ) (src : ℕ)
    → all is_port ports ≡ true
    → is_port src ≡ true
    → port_policy ports src ≡ ok (sent ports src)
unfolding port_policy port_eq set_port port_location physical_init checked
port_policy-sent ports src h k =
    rw k (rw (checked-all is_port (other_ports src ports)) (rw (all-other_ports src ports h) refl))

-- The policy of one switch.
abbrev pub at_switch : Topo → ℕ → Policy
at_switch topo sw =
    let ports = ports_at (get sw topo) in
    Policy.filter (Pred.multi_pred (Pred.test (Ast.switch sw)))
    >>> Policy.union (policies (map (sent ports) ports))

pub ports_at-ArePorts :
    (sw : ℕ) (topo : Topo) → All (λ e. ArePorts e.1) topo → ArePorts (ports_at (get sw topo))
unfolding get
ports_at-ArePorts sw [] h = (refl, tt)
ports_at-ArePorts sw ((k, v) ∷ topo) (h, hs) = elim (Bool-cases (k == sw)) [
  | inl e ↦ rw e h
  | inr e ↦ rw e (ports_at-ArePorts sw topo hs)
]

get_present :
    (sw : ℕ) (topo : Topo)
    → any (λ k. k == sw) (keys topo) ≡ true
    → get sw topo ≡ some (ports_at (get sw topo))
unfolding get
get_present sw [] h = cc
get_present sw ((k, v) ∷ topo) h = elim (Bool-cases (k == sw)) [
  | inl e ↦ rw e refl
  | inr e ↦ rw e (get_present sw topo (rw e at h))
]

get_absent : (sw : ℕ) (topo : Topo) → any (λ k. k == sw) (keys topo) ≡ false → get sw topo ≡ none
unfolding get
get_absent sw [] h = refl
get_absent sw ((k, v) ∷ topo) h = elim (Bool-cases (k == sw)) [
  | inl e ↦ let f : true ≡ false = rw e at h in cc
  | inr e ↦ rw e (get_absent sw topo (rw e at h))
]

sw_policy-at_switch :
    (topo : Topo)
    → All (λ e. ArePorts e.1) topo
    → (sw : ℕ) → any (λ k. k == sw) (keys topo) ≡ true
    → sw_policy topo sw ≡ ok (at_switch topo sw)
unfolding sw_policy
sw_policy-at_switch topo h sw k = rw (get_present sw topo k) (
    rw
      (traverse-all (port_policy (ports_at (get sw topo))) (sent (ports_at (get sw topo))) is_port
        (λ n i. port_policy-sent (ports_at (get sw topo)) n (ports_at-ArePorts sw topo h).0 i)
        (ports_at (get sw topo)) (ports_at-ArePorts sw topo h).0)
      (rw (switch_eq-num sw) refl))

all_present : (ns : List ℕ) → All (λ n. any (λ k. k == n) ns ≡ true) ns
all_present [] = tt
all_present (n ∷ ns) =
    (rw (==_refl n) refl, All-map _ _ (λ k h. rw h (ground arith)) ns (all_present ns))

traverse-All :
    {B : Type 0} (f : ℕ → Result B) (g : ℕ → B) (ns : List ℕ)
    → All (λ n. f n ≡ ok (g n)) ns
    → traverse f ns ≡ ok (map g ns)
traverse-All f g [] h = refl
traverse-All f g (n ∷ ns) (h, hs) = rw h (rw (traverse-All f g ns hs) refl)

abbrev pub at_switches : Topo → Policy
at_switches topo = Policy.union (policies (map (at_switch topo) (keys topo)))

pub policy-at_switches : (topo : Topo) → IsValid topo → policy topo ≡ ok (at_switches topo)
unfolding policy
policy-at_switches topo v =
    rw
      (traverse-All (sw_policy topo) (at_switch topo) (keys topo)
        (All-map _ _ (sw_policy-at_switch topo v.ports) (keys topo) (all_present (keys topo))))
      refl

module _ {P : Type 0} (m : Packets P) where
  -- The packets that the policy of a topology is to make of one on a port.
  abbrev pub repeated : Topo → ℕ → ℕ → P → List P
  repeated topo s p pkt =
      if any (λ q. q == p) (ports_at (get s topo))
      then map (λ l. m.assign (location (physical l)) pkt) (other_ports p (ports_at (get s topo)))
      else []

  run-at_switches :
      (topo : Topo)
      → IsValid topo
      → (s p : ℕ) (pkt : P) → IsOn m s p pkt
      → (k : ℕ) → run m pkt (at_switch topo k) ≡ only (λ sw. repeated topo sw p pkt) s k
  unfolding run
  run-at_switches topo v s p pkt at k =
      run-at_switch m s p pkt at k
        (Policy.union (policies (map (sent (ports_at (get k topo))) (ports_at (get k topo)))))
      ∙ rw (run-actions m s p pkt at (ports_at (get k topo)) (ports_at-ArePorts k topo v.ports).1)
          refl

  -- The policy of a valid topology is made, and it sends a packet on a port of a switch out of each other
  -- port of the switch, once and in their order; it drops a packet at an unknown switch or port.
  pub run-policy :
      (topo : Topo)
      → IsValid topo
      → (pol : Policy) × (policy topo ≡ ok pol)
        × ((s p : ℕ) (pkt : P) → IsOn m s p pkt → run m pkt pol ≡ repeated topo s p pkt)
  unfolding run
  run-policy topo v = (
    at_switches topo,
    policy-at_switches topo v,
    λ s p pkt at.
        run_union-map m pkt (at_switch topo) (keys topo)
        ∙ ap (λ f. flat_map f (keys topo)) (fun_ext (run-at_switches topo v s p pkt at))
        ∙ flat_map-only (λ sw. repeated topo sw p pkt) s (keys topo) v.unique
        ∙ known s p pkt,
  )
    where
      known :
          (s p : ℕ) (pkt : P)
          → (if any (λ k. k == s) (keys topo) then repeated topo s p pkt else [])
            ≡ repeated topo s p pkt
      known s p pkt = elim (Bool-cases (any (λ k. k == s) (keys topo))) [
        | inl e ↦ rw e refl
        | inr e ↦ rw e (rw (get_absent s topo e) refl)
      ]
