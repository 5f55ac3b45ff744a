-- ===== src/Tests/Floods.antt =====
-- The theorems on the flood policy and the repeater, at concrete inputs.
use frenetic.Base.{
  ℕ, false, ◌&&◌, ◌≡◌, refl, List, [], ◌∷◌, map, ok, arith, any, ◌==◌, if◌then◌else◌,
}
use frenetic.Syntax.Ast.{physical, location, Policy}
use frenetic.Syntax.Meaning.{run}
use frenetic.Tests.Frames.{Frame, frames}
use frenetic.Apps.Flood.Policy.{SwitchRef, other_ports, flood_switch_policy}
use frenetic.Apps.Flood.Sends.{IsOn, run-flood_switch_policy}
use frenetic.Apps.Learning.Dict.{get, put, delete}
use frenetic.Apps.Learning.State.{remove_port}
use frenetic.Apps.Repeater.State.{Topo, policy}
use frenetic.Apps.Repeater.Sends.{IsValid, repeated, run-policy}
use frenetic.Base.Base64.{b64encode}
use frenetic.Base.Base64.Laws.{b64decode-b64encode}
use frenetic.Messages.Controller as Controller
use frenetic.Apps.Repeater.Live.{MyApp, topology_events, AreTrue, HasSent, run-my_app}
use frenetic.Apps.Repeater.Valid as Repeater
use frenetic.Apps.Repeater.Valid.{up, down, added, removed, AreFit, run-IsValid}

abbrev hub : SwitchRef
hub = record { id = 1; ports = 1 ∷ 2 ∷ 3 ∷ [] }

run-flood_switch_policy_example :
    (pol : Policy) × (flood_switch_policy hub ≡ ok pol)
    × ((s p : ℕ) (pkt : Frame)
        → IsOn frames s p pkt
        → run frames pkt pol ≡ (
            if hub.id == s && any (λ q. q == p) hub.ports
            then map (λ l. frames.assign (location (physical l)) pkt) (other_ports p hub.ports)
            else []))
run-flood_switch_policy_example = run-flood_switch_policy frames hub refl (ground arith)

abbrev pair : Topo
pair = (1, 1 ∷ 2 ∷ []) ∷ (2, 1 ∷ 2 ∷ 3 ∷ []) ∷ []

pair-IsValid : IsValid pair
pair-IsValid = record { unique = ground arith; ports = ground arith }

run-policy_example :
    (pol : Policy) × (policy pair ≡ ok pol)
    × ((s p : ℕ) (pkt : Frame)
        → IsOn frames s p pkt
        → run frames pkt pol ≡ repeated frames pair s p pkt)
run-policy_example = run-policy frames pair pair-IsValid

abbrev changes : List Repeater.Event
changes = up 3 (7 ∷ []) ∷ added 3 8 ∷ removed 9 1 ∷ removed 3 7 ∷ down 1 ∷ []

changes-AreFit : AreFit changes pair
unfolding Repeater.step get put
changes-AreFit = ((refl, (refl, tt)), ((refl, refl), (tt, (tt, (tt, tt)))))

run-IsValid_example : IsValid (Repeater.run changes pair)
run-IsValid_example = run-IsValid changes pair changes-AreFit pair-IsValid

abbrev morning : List Controller.Event
morning =
    Controller.switch_up 3 (7 ∷ 9 ∷ [])
    ∷ Controller.port_up 3 8
    ∷ Controller.flow_stats 4 5
    ∷ Controller.port_down 3 7
    ∷ Controller.switch_down 1
    ∷ []

morning-AreTrue : AreTrue (topology_events morning) pair
unfolding Repeater.step get put delete remove_port
morning-AreTrue = (
  ((refl, (refl, (refl, tt))), tt, no_lone),
  (
    ((refl, refl), refl, no_lone),
    ((tt, (refl, refl), no_lone), ((tt, refl, (refl, (refl, tt))), tt)),
  ),
)
  where
    no_lone : (false ≡ false) × ((false ≡ false) × ((false ≡ false) × Unit {0}))
    no_lone = (refl, (refl, (refl, tt)))

abbrev waking : MyApp
waking = record { topo = pair; sent = [] }

run-my_app_example : (ps : List Policy) × HasSent b64encode b64decode-b64encode morning waking ps
run-my_app_example =
    run-my_app b64encode b64decode-b64encode morning waking (ground arith) pair-IsValid
      morning-AreTrue
