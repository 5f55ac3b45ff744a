-- ===== src/Apps/Learning/Handlers.antt =====
-- lang/python/frenetic/examples/learning.py: the methods of LearningApp, with the policy that each sends.
use frenetic.Base.{ℕ, Bool, true, false, List, [], ◌∷◌, Option, none, some, Result, ok, err, ◌>>=◌}
use frenetic.Base.Text.{Text}
use frenetic.Packet.Defs.{Protocol}
use frenetic.Syntax.Ast.{Policy}
use frenetic.Client.Methods.{sends}
use frenetic.Apps.Learning.State as Learning
use frenetic.Apps.Learning.State.{State, learn}
use frenetic.Apps.Learning.Policy.{policy}

-- The state, with the policy that is sent, if any, or the exception.
abbrev pub Outcome : Type 0
Outcome = State × Result (Option Policy)

-- `self.update(policy())`, which prints the policy
unfoldable pub send : State → Outcome
unfolding policy sends
send s = (s, do p ← policy s; q ← sends p; ok (some q))

unfoldable pub on_switch_up : ℕ → List ℕ → State → Outcome
unfolding send
on_switch_up sw ports s = send (Learning.switch_up sw ports s)

unfoldable pub on_switch_down : ℕ → State → Outcome
unfolding send
on_switch_down sw s = send (Learning.switch_down sw s)

unfoldable pub on_port_up : ℕ → ℕ → State → Outcome
unfolding send
on_port_up sw pt s = send (Learning.port_up sw pt s)

abbrev after_removal : State × Result (Unit {0}) → Outcome
after_removal (s, ok u) = send s
after_removal (s, err e) = (s, err e)

unfoldable pub on_port_down : ℕ → ℕ → State → Outcome
unfolding send
on_port_down sw pt s = after_removal (Learning.port_down sw pt s)

abbrev after_learning : State × Result Bool → Outcome
after_learning (s, ok true) = send s
after_learning (s, ok false) = (s, ok none)
after_learning (s, err e) = (s, err e)

unfoldable pub packet_in : (Text → List Protocol) → ℕ → ℕ → Text → State → Outcome
unfolding learn send
packet_in parse sw pt payload s = after_learning (learn parse sw payload pt s)

-- What is sent after what has been sent, unless there was an exception.
abbrev and_then :
    Outcome
    → (State → State × Result (List (Option Policy)))
    → State × Result (List (Option Policy))
and_then (s, err e) k = (s, err e)
and_then (s, ok p) k = ((k s).0, (k s).1 >>= λ ps. ok (p ∷ ps))

-- handle_current_switches, with the switches that are connected at the start
unfoldable pub connected : List (ℕ × List ℕ) → State → State × Result (List (Option Policy))
unfolding on_switch_up
connected [] s = (s, ok [])
connected ((sw, ports) ∷ switches) s = and_then (on_switch_up sw ports s) (connected switches)
