-- ===== src/Apps/Repeater/State.antt =====
-- lang/python/frenetic/examples/repeater.py: `topo`, the policy and the handlers. A handler returns topo
-- beside the policy that it sends, since what it wrote before an exception stays written.
use frenetic.Base.{
  ℕ, List, [], ◌∷◌, ◌++◌, map, none, some, Result, ok, err, ◌>>=◌, or_raise, key_error, value_error,
  traverse, any, ◌==◌, if◌then◌else◌,
}
use frenetic.Value.{atom, list}
use frenetic.Syntax.Ast.{Policy, policies}
use frenetic.Syntax.Build.{◌>>>◌}
use frenetic.Syntax.Sugar.Tests.{port_eq, switch_eq}
use frenetic.Syntax.Sugar.Sets.{set_port}
use frenetic.Client.Methods.{sends}
use frenetic.Apps.Learning.Dict.{Dict, get, put, delete}
use frenetic.Apps.Learning.State.{remove_port}
use frenetic.Apps.Flood.Policy.{num, other_ports}

abbrev pub Topo : Type 0
Topo = Dict (List ℕ)

-- self.topo.keys()
abbrev pub keys : Topo → List ℕ
keys topo = map (λ e. e.0) topo

-- The comprehension is the one of flood_switch.py with its comparison turned round.
unfoldable pub port_policy : List ℕ → ℕ → Result Policy
unfolding port_eq set_port
port_policy ports in_port = do
  p ← set_port (list (map num (other_ports in_port ports)) ∷ [])
  from ← port_eq (atom (num in_port) ∷ [])
  ok (Policy.filter from >>> p)

unfoldable pub sw_policy : Topo → ℕ → Result Policy
unfolding port_policy switch_eq
sw_policy topo sw = do
  ports ← or_raise key_error (get sw topo)
  ps ← traverse (port_policy ports) ports
  here ← switch_eq (atom (num sw) ∷ [])
  ok (Policy.filter here >>> Policy.union (policies ps))

unfoldable pub policy : Topo → Result Policy
unfolding sw_policy
policy topo = do ps ← traverse (sw_policy topo) (keys topo); ok (Policy.union (policies ps))

-- The end of each handler: `self.update(self.policy())`, which prints the policy.
unfoldable pub update : Topo → Topo × Result Policy
unfolding policy sends
update topo = (topo, policy topo >>= sends)

unfoldable pub switch_up : ℕ → List ℕ → Topo → Topo × Result Policy
unfolding update
switch_up switch_id ports topo = update (put switch_id ports topo)

unfoldable pub switch_down : ℕ → Topo → Topo × Result Policy
unfolding update
switch_down switch_id topo = elim (get switch_id topo) [
  | none ↦ (topo, err key_error)
  | some ports ↦ update (delete switch_id topo)
]

unfoldable pub port_up : ℕ → ℕ → Topo → Topo × Result Policy
unfolding update
port_up switch_id port_id topo = elim (get switch_id topo) [
  | none ↦ (topo, err key_error)
  | some ports ↦ update (put switch_id (ports ++ port_id ∷ []) topo)
]

unfoldable pub port_down : ℕ → ℕ → Topo → Topo × Result Policy
unfolding update
port_down switch_id port_id topo = elim (get switch_id topo) [
  | none ↦ (topo, err key_error)
  | some ports ↦
      if any (λ p. p == port_id) ports
      then update (put switch_id (remove_port port_id ports) topo)
      else (topo, err value_error)
]
