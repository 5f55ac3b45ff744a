-- ===== src/Apps/Flood/Policy.antt =====
-- lang/python/frenetic/examples/flood_switch.py: the policy that floods the ports of a switch.
use frenetic.Base.{ℕ, not, List, [], ◌∷◌, map, Result, ok, ◌>>=◌, traverse, ◌==◌, if◌then◌else◌}
use frenetic.Base.Int.{pos}
use frenetic.Value
use frenetic.Value.{Atom, atom, list}
use frenetic.Syntax.Ast.{Policy, policies}
use frenetic.Syntax.Build.{◌>>>◌, drop_policy}
use frenetic.Syntax.Sugar.Tests.{port_eq, switch_eq}
use frenetic.Syntax.Sugar.Sets.{set_port}

pub record SwitchRef : Type 0 where
  pub id : ℕ
  pub ports : List ℕ

abbrev pub num : ℕ → Atom
num n = Value.int (pos n)

-- `[dst for dst in switch.ports if src != dst]`
abbrev pub other_ports : ℕ → List ℕ → List ℕ
other_ports src [] = []
other_ports src (dst ∷ ps) =
    if not (src == dst) then dst ∷ other_ports src ps else other_ports src ps

-- One round of the loop.
unfoldable pub action : List ℕ → ℕ → Result Policy
unfolding port_eq set_port
action ports src = do
  from ← port_eq (atom (num src) ∷ [])
  to ← set_port (list (map num (other_ports src ports)) ∷ [])
  ok (Policy.filter from >>> to)

-- The end of the function.
abbrev pub flood_or_drop : List Policy → Policy
flood_or_drop [] = drop_policy
flood_or_drop (p ∷ ps) = Policy.union (policies (p ∷ ps))

unfoldable pub flood_switch_policy : SwitchRef → Result Policy
unfolding action switch_eq
flood_switch_policy switch = do
  all_policies ← traverse (action switch.ports) switch.ports
  here ← switch_eq (atom (num switch.id) ∷ [])
  ok (Policy.filter here >>> flood_or_drop all_policies)
