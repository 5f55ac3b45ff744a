-- ===== src/Apps/Learning/Policy.antt =====
-- lang/python/frenetic/examples/learning.py: the policies of the switches.
use frenetic.Base.{
  ℕ, not, List, [], ◌∷◌, map, Option, none, some, Result, ok, ◌>>=◌, key_error, or_raise, traverse,
  ◌==◌, if◌then◌else◌,
}
use frenetic.Base.Int.{pos}
use frenetic.Base.Text.{Text, codes}
use frenetic.Value
use frenetic.Value.{Atom, Arg, atom, list}
use frenetic.Syntax.Ast.{Pred, Policy, policies}
use frenetic.Syntax.Build.{◌&◌, ~◌, ◌>>>◌, ◌⊔◌, drop_policy}
use frenetic.Syntax.Sugar.Tests.{port_eq, eth_src_eq, eth_dst_eq}
use frenetic.Syntax.Sugar.Sets.{set_port, send_to_controller}
use frenetic.Apps.Learning.Dict.{get}
use frenetic.Apps.Learning.State.{State}

abbrev num : ℕ → Atom
num n = Value.int (pos n)

abbrev mac_atom : Option Text → Atom
mac_atom none = Value.other
mac_atom (some mac) = Value.str mac

-- `[_pt for _pt in ports if _pt != pt]`
abbrev pub other_ports : ℕ → List ℕ → List ℕ
other_ports pt [] = []
other_ports pt (p ∷ ps) = if not (p == pt) then p ∷ other_ports pt ps else other_ports pt ps

unfoldable pub flood_port : List ℕ → ℕ → Result Policy
unfolding port_eq set_port
flood_port ports pt = do
  from ← port_eq (atom (num pt) ∷ [])
  to ← set_port (list (map num (other_ports pt ports)) ∷ [])
  ok (Policy.filter from >>> to)

unfoldable pub flood : ℕ → State → Result Policy
unfolding flood_port
flood sw s = do
  ports ← or_raise key_error (get sw s.topo)
  pols ← traverse (flood_port ports) ports
  ok (Policy.union (policies pols))

-- The `reduce` over the addresses of a switch, with the policy for the known ones and the predicate
-- for the others.
unfoldable pub reduce_macs : Policy → Pred → List (Option Text × ℕ) → Result (Policy × Pred)
unfolding eth_src_eq eth_dst_eq set_port
reduce_macs known unknown [] = ok (known, unknown)
reduce_macs known unknown ((mac, pt) ∷ macs) = do
  src ← eth_src_eq (atom (mac_atom mac) ∷ [])
  dst ← eth_dst_eq (atom (mac_atom mac) ∷ [])
  to ← set_port (atom (num pt) ∷ [])
  reduce_macs (known ⊔ (Policy.filter dst >>> to)) (unknown & (~◌ src)) macs

unfoldable pub switch_policy : State → ℕ → Result Policy
unfolding flood reduce_macs
switch_policy s sw = do
  macs ← or_raise key_error (get sw s.table)
  (known_pol, unknown_pred) ← reduce_macs drop_policy Pred.id macs
  rest ← flood sw s
  ok (
      known_pol
      ⊔ (Policy.filter unknown_pred >>> (send_to_controller (codes "learning_controller") ⊔ rest)))

unfoldable pub policy : State → Result Policy
unfolding switch_policy
policy s = do pols ← traverse (λ t. switch_policy s t.0) s.topo; ok (Policy.union (policies pols))
