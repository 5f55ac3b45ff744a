-- ===== src/Apps/Repeater/Printed.antt =====
-- lang/python/frenetic/examples/repeater.py with `update` of lang/python/frenetic/__init__.py: the policy
-- can be printed if no switch has a single port, whose SetPort would name none.
use frenetic.Base.{
  ℕ, Bool, true, false, ◌≡◌, refl, List, [], ◌∷◌, map, All, ok, arith, ◌==◌, Bool-cases, inl, inr,
  ◌>>=◌,
}
use frenetic.Syntax.Ast.{Policy, policies}
use frenetic.Syntax.Unions.{AreUnique}
use frenetic.Syntax.Wire.Lower.{has_ports, all_have_ports}
use frenetic.Syntax.Wire.Agreement.{printed}
use frenetic.Client.Methods.{sends, update}
use frenetic.Apps.Learning.Dict.{get}
use frenetic.Apps.Flood.Sends.{sent}
use frenetic.Apps.Repeater.State.{Topo, keys, policy}
use frenetic.Apps.Repeater.Sends.{
  IsValid, ports_at, ports_at-ArePorts, at_switch, at_switches, policy-at_switches,
}

-- A switch with one port.
abbrev pub is_lone : List ℕ → Bool
is_lone (p ∷ []) = true
is_lone _ = false

abbrev pub HasNoLone : Topo → Type 0
HasNoLone topo = All (λ e. is_lone e.1 ≡ false) topo

ports_at-is_lone :
    (sw : ℕ) (topo : Topo) → HasNoLone topo → is_lone (ports_at (get sw topo)) ≡ false
unfolding get
ports_at-is_lone sw [] h = refl
ports_at-is_lone sw ((k, v) ∷ topo) (h, hs) = elim (Bool-cases (k == sw)) [
  | inl e ↦ rw e h
  | inr e ↦ rw e (ports_at-is_lone sw topo hs)
]

-- Of two different ports, one is another port than the source.
sent-has_ports :
    (p q : ℕ) (ps : List ℕ) (src : ℕ)
    → AreUnique (p ∷ q ∷ ps)
    → has_ports (sent (p ∷ q ∷ ps) src) ≡ true
unfolding has_ports
sent-has_ports p q ps src u = elim (Bool-cases (src == p)) [
  | inl e ↦ let other : (src == q) ≡ false = let a = u.0 in ground arith in rw e (rw other refl)
  | inr e ↦ rw e refl
]

all_have_ports-map :
    (f : ℕ → Policy) (ns : List ℕ)
    → ((n : ℕ) → has_ports (f n) ≡ true)
    → all_have_ports (policies (map f ns)) ≡ true
unfolding has_ports
all_have_ports-map f [] h = refl
all_have_ports-map f (n ∷ ns) h = rw (h n) (all_have_ports-map f ns h)

sents-have_ports :
    (ports : List ℕ)
    → AreUnique ports
    → is_lone ports ≡ false
    → all_have_ports (policies (map (sent ports) ports)) ≡ true
unfolding has_ports
sents-have_ports [] u h = refl
sents-have_ports (p ∷ []) u h = cc
sents-have_ports (p ∷ q ∷ ps) u h =
    all_have_ports-map (sent (p ∷ q ∷ ps)) (p ∷ q ∷ ps) (λ src. sent-has_ports p q ps src u)

at_switch-has_ports :
    (topo : Topo) → IsValid topo → HasNoLone topo → (sw : ℕ) → has_ports (at_switch topo sw) ≡ true
unfolding has_ports
at_switch-has_ports topo v h sw =
    rw
      (sents-have_ports (ports_at (get sw topo)) (ports_at-ArePorts sw topo v.ports).1
        (ports_at-is_lone sw topo h))
      refl

-- The policy of a valid topology without a lone port is made, printed and sent.
pub policy-sends :
    (topo : Topo) → IsValid topo → HasNoLone topo → (policy topo >>= sends) ≡ ok (at_switches topo)
unfolding sends has_ports
policy-sends topo v h =
    let (j, e) =
      printed (at_switches topo)
        (all_have_ports-map (at_switch topo) (keys topo) (at_switch-has_ports topo v h)) in
    rw (policy-at_switches topo v) (rw (e, update) refl)
