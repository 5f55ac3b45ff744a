-- ===== src/Apps/Small/PortCount.antt =====
-- lang/python/frenetic/examples/port_count.py: the state and the handlers of switches.
use frenetic.Base.{ℕ, List, [], ◌∷◌, ◌++◌, Result, ok, err, ◌>>=◌, name_error, traverse}
use frenetic.Syntax.Ast.{Policy, policies}
use frenetic.Apps.Flood.Policy.{SwitchRef, flood_switch_policy}

-- Two objects of SwitchRef are equal only if they are the same, so each switch that comes
-- up is one more element of the set.
abbrev pub Switches : Type 0
Switches = List SwitchRef

unfoldable pub global_policy : Switches → Result Policy
unfolding flood_switch_policy
global_policy switches =
    traverse flood_switch_policy switches >>= λ ps. ok (Policy.union (policies ps))

unfoldable pub switch_up : ℕ → List ℕ → Switches → Switches × Result Policy
unfolding global_policy
switch_up switch_id ports switches =
    let switches' = switches ++ record { id = switch_id; ports = ports } ∷ [] in
    (switches', global_policy switches')

-- The variable `ports` is not bound.
abbrev pub switch_down : ℕ → Switches → Switches × Result Policy
switch_down switch_id switches = (switches, err name_error)
