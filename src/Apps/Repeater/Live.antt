-- ===== src/Apps/Repeater/Live.antt =====
-- lang/python/frenetic/examples/repeater.py with lang/python/frenetic/__init__.py: the repeater as an
-- application of the polling client.
use frenetic.Base.{
  ℕ, true, ◌≡◌, refl, ap, sym, ◌∙◌, List, [], ◌∷◌, ◌++◌, map, Option, none, some, Result, ok, err,
  ◌>>=◌, type_error, any, traverse, All, is_some, ◌==◌, false, Option-cases, inl, inr,
}
use mathlib.Core.List.{append-nil, append_assoc}
use frenetic.Base.Int.{pos}
use frenetic.Base.Text.{Text}
use frenetic.Base.Base64.Decode.{b64decode}
use frenetic.Base.Base64.Laws.{IsBytes}
use frenetic.Json
use frenetic.Json.{Json, Items, nat, items}
use frenetic.Syntax.Ast.{Policy}
use frenetic.Messages.Controller as Controller
use frenetic.Messages.Dispatch.{Call}
use frenetic.Messages.Dispatch
use frenetic.Messages.Events.{call_of, Fits, dispatch-event_to_json}
use frenetic.Client.Loop.{
  App, polling, Client, invoke, poll_after, handle_call, handle_event, advance,
}
use frenetic.Client.Loop as Loop
use frenetic.Client.Life.{documents}
use frenetic.Apps.Learning.Dict.{get}
use frenetic.Client.Methods.{sends}
use frenetic.Apps.Repeater.Printed.{HasNoLone, policy-sends}
use frenetic.Apps.Repeater.State.{Topo, policy, update, switch_up, switch_down, port_up, port_down}
use frenetic.Apps.Repeater.Sends.{IsValid, ports_at, at_switches, policy-at_switches}
use frenetic.Apps.Repeater.Valid.{Event, up, down, added, removed, step, step-IsValid, IsFit, run}

-- The topology, and the policies that have been sent with `update`.
pub record MyApp : Type 0 where
  pub topo : Topo
  pub sent : List Policy

-- The end of a handler.
abbrev pub after : List Policy → Topo × Result Policy → MyApp × Result (Unit {0})
after sent (topo, ok p) = (record { topo = topo; sent = sent ++ p ∷ [] }, ok tt)
after sent (topo, err e) = (record { topo = topo; sent = sent }, err e)

-- The numbers of a document, which is what the controller sends; another document is not gone into.
abbrev read_nat : Json → Result ℕ
read_nat (Json.int (pos n)) = ok n
read_nat j = err type_error

abbrev read_nats : Items → Result (List ℕ)
read_nats Json.nil = ok []
read_nats (Json.cons j js) = read_nat j >>= λ n. read_nats js >>= λ ns. ok (n ∷ ns)

abbrev read_ports : Json → Result (List ℕ)
read_ports (Json.arr js) = read_nats js
read_ports j = err type_error

-- The event that a call tells of, unless it is one that the repeater does not handle.
abbrev event_of : Call → Result (Option Event)
event_of (Dispatch.switch_up a b) =
    read_nat a >>= λ sw. read_ports b >>= λ ports. ok (some (up sw ports))
event_of (Dispatch.switch_down a) = read_nat a >>= λ sw. ok (some (down sw))
event_of (Dispatch.port_up a b) =
    read_nat a >>= λ sw. read_nat b >>= λ port. ok (some (added sw port))
event_of (Dispatch.port_down a b) =
    read_nat a >>= λ sw. read_nat b >>= λ port. ok (some (removed sw port))
event_of _ = ok none

missing : {A : Type 0} (o : Option A) → o ≡ none → is_some o ≡ true → ⊥
missing o e k = clash (sym (ap is_some e) ∙ k)
  where
    clash : false ≡ true → ⊥
    clash h = cc

abbrev pub handler : Event → Topo → Topo × Result Policy
handler (up sw ports) topo = switch_up sw ports topo
handler (down sw) topo = switch_down sw topo
handler (added sw port) topo = port_up sw port topo
handler (removed sw port) topo = port_down sw port topo

abbrev perform : Result (Option Event) → MyApp → MyApp × Result (Unit {0})
perform (err e) s = (s, err e)
perform (ok none) s = (s, ok tt)
perform (ok (some ev)) s = after s.sent (handler ev s.topo)

-- The class inherits packet_in, which drops the packet. `connected` asks for the current switches; the
-- answer is no event, and is left out.
unfoldable pub my_app : App MyApp
unfolding switch_up switch_down port_up port_down
my_app = record { handle = λ call s. perform (event_of call) s; connected = λ s. (s, ok tt) }

-- What an event of the controller is for the repeater.
abbrev pub told : Controller.Event → Option Event
told (Controller.switch_up sw ports) = some (up sw ports)
told (Controller.switch_down sw) = some (down sw)
told (Controller.port_up sw port) = some (added sw port)
told (Controller.port_down sw port) = some (removed sw port)
told e = none

abbrev prepend : Option Event → List Event → List Event
prepend none es = es
prepend (some e) es = e ∷ es

abbrev pub topology_events : List Controller.Event → List Event
topology_events [] = []
topology_events (e ∷ es) = prepend (told e) (topology_events es)

-- The switch of the event is known, and so is the port that is taken away.
abbrev pub IsKnown : Event → Topo → Type 0
IsKnown (up sw ports) topo = Unit
IsKnown (down sw) topo = is_some (get sw topo) ≡ true
IsKnown (added sw port) topo = is_some (get sw topo) ≡ true
IsKnown (removed sw port) topo =
    (is_some (get sw topo) ≡ true) × (any (λ p. p == port) (ports_at (get sw topo)) ≡ true)

-- The events fit the topology at their time, name what is there, and leave no switch with one port.
abbrev pub AreTrue : List Event → Topo → Type 0
AreTrue [] topo = Unit
AreTrue (e ∷ es) topo =
    (IsFit e topo × IsKnown e topo × HasNoLone (step e topo)) × AreTrue es (step e topo)

-- The topologies after one event, after two and so on.
abbrev pub topologies : List Event → Topo → List Topo
topologies [] topo = []
topologies (e ∷ es) topo = step e topo ∷ topologies es (step e topo)

-- A known switch's handler ends with `update` of the policy of what it leaves.
handler-sends :
    (e : Event) (topo : Topo)
    → IsKnown e topo
    → handler e topo ≡ (step e topo, policy (step e topo) >>= sends)
unfolding step update switch_up switch_down port_up port_down
handler-sends (up sw ports) topo k = refl
handler-sends (down sw) topo k = elim (Option-cases (get sw topo)) [
  | inl e ↦ absurd (missing (get sw topo) e k)
  | inr (ports, e) ↦ rw (e, step, switch_down) refl
]
handler-sends (added sw port) topo k = elim (Option-cases (get sw topo)) [
  | inl e ↦ absurd (missing (get sw topo) e k)
  | inr (ports, e) ↦ rw (e, step, port_up) refl
]
handler-sends (removed sw port) topo k = elim (Option-cases (get sw topo)) [
  | inl e ↦ absurd (missing (get sw topo) e k.0)
  | inr (ports, e) ↦
      let there : any (λ p. p == port) ports ≡ true = rw e at k.1 in
      rw (e, step, port_down) (rw there refl)
]

read_nats-items : (ns : List ℕ) → read_nats (items (map nat ns)) ≡ ok ns
read_nats-items [] = refl
read_nats-items (n ∷ ns) = rw (read_nats-items ns) refl

event_of-call_of : (e : Controller.Event) → event_of (call_of e) ≡ ok (told e)
event_of-call_of (Controller.packet_in pipe sw pt payload len) = refl
event_of-call_of (Controller.switch_up sw ports) = rw (read_nats-items ports) refl
event_of-call_of (Controller.switch_down sw) = refl
event_of-call_of (Controller.port_up sw pt) = refl
event_of-call_of (Controller.port_down sw pt) = refl
event_of-call_of (Controller.port_stats counters) = refl
event_of-call_of (Controller.flow_stats packets bytes) = refl

abbrev pub polls : MyApp → Client MyApp
polls s = record { phase = polling; state = s }

perform-sends :
    (e : Event) (s : MyApp)
    → IsFit e s.topo
    → IsKnown e s.topo
    → HasNoLone (step e s.topo)
    → IsValid s.topo
    → (p : Policy) × (policy (step e s.topo) ≡ ok p)
      × (perform (ok (some e)) s
          ≡ (record { topo = step e s.topo; sent = s.sent ++ p ∷ [] }, ok tt))
perform-sends e s f k l v =
    let v' = step-IsValid e s.topo f v in
    (
      at_switches (step e s.topo),
      policy-at_switches (step e s.topo) v',
      rw (handler-sends e s.topo k) (rw (policy-sends (step e s.topo) v' l) refl),
    )

invoke-my_app :
    (e : Controller.Event) (s : MyApp) → invoke my_app (call_of e) s ≡ perform (ok (told e)) s
unfolding my_app
invoke-my_app (Controller.packet_in pipe sw pt payload len) s = refl
invoke-my_app (Controller.switch_up sw ports) s = rw (read_nats-items ports) refl
invoke-my_app (Controller.switch_down sw) s = refl
invoke-my_app (Controller.port_up sw pt) s = refl
invoke-my_app (Controller.port_down sw pt) s = refl
invoke-my_app (Controller.port_stats counters) s = refl
invoke-my_app (Controller.flow_stats packets bytes) s = refl

module _ (encode : Text → Text)
    (decodes : (bytes : Text) → IsBytes bytes → b64decode (encode bytes) ≡ ok bytes) where
  run-first :
      (e : Controller.Event) (es : List Controller.Event) (s : MyApp)
      → Fits e
      → Loop.run my_app (documents encode (e ∷ es)) (polls s)
        ≡ Loop.run my_app (documents encode es) (poll_after my_app (perform (ok (told e)) s))
  unfolding Loop.run advance handle_event
  run-first e es s h =
      let (j, made, called) = dispatch-event_to_json encode decodes e h in
      rw made (ap (λ r. Loop.run my_app (documents encode es) (handle_call my_app s r)) called)
      ∙ ap (λ r. Loop.run my_app (documents encode es) (poll_after my_app r)) (invoke-my_app e s)

  -- The client has sent the policies of the topologies that the events lead to, and polls.
  abbrev pub HasSent : List Controller.Event → MyApp → List Policy → Type 0
  HasSent es s ps =
      (traverse policy (topologies (topology_events es) s.topo) ≡ ok ps)
      × (Loop.run my_app (documents encode es) (polls s)
          ≡ polls (record { topo = run (topology_events es) s.topo; sent = s.sent ++ ps }))

  -- The rest of a run, from each state that has a valid topology.
  abbrev Goes : List Controller.Event → Type 0
  Goes es =
      (s : MyApp)
      → IsValid s.topo
      → AreTrue (topology_events es) s.topo
      → (ps : List Policy) × HasSent es s ps

  go_on :
      (o : Option Event) (es : List Controller.Event) (s : MyApp)
      → Goes es
      → IsValid s.topo
      → AreTrue (prepend o (topology_events es)) s.topo
      → (ps : List Policy) × (traverse policy (topologies (prepend o (topology_events es)) s.topo)
          ≡ ok ps)
        × (Loop.run my_app (documents encode es) (poll_after my_app (perform (ok o) s))
            ≡ polls (record {
              topo = run (prepend o (topology_events es)) s.topo;
              sent = s.sent ++ ps;
            }))
  unfolding run
  go_on none es s goes v t = let (ps, (made, ran)) = goes s v t in (ps, made, ran)
  go_on (some e) es s goes v ((f, k, l), t) =
      let (p, made, e') = perform-sends e s f k l v in
      let s' : MyApp = record { topo = step e s.topo; sent = s.sent ++ p ∷ [] } in
      let (ps, (more, ran)) = goes s' (step-IsValid e s.topo f v) t in
      (
        p ∷ ps,
        rw made (rw more refl),
        ap (λ r. Loop.run my_app (documents encode es) (poll_after my_app r)) e'
            ∙ ran
            ∙ ap (λ l. polls (record { topo = run (topology_events es) (step e s.topo); sent = l }))
                (append_assoc s.sent (p ∷ []) ps),
      )

  -- If b64decode undoes the controller's encoder on bytes: a repeater that asks for events, in a valid
  -- topology, and gets the documents of events that are true of the network at their time and each
  -- leave no switch with exactly one port, asks for the next event afterwards. Its topology is what the events make of it, and it has sent the policy of
  -- each topology on the way, in their order.
  pub run-my_app :
      (es : List Controller.Event) (s : MyApp)
      → All Fits es
      → IsValid s.topo
      → AreTrue (topology_events es) s.topo
      → (ps : List Policy) × HasSent es s ps
  unfolding Loop.run run
  run-my_app [] s h v t =
      ([], (refl, ap (λ l. polls (record s { sent = l })) (sym (append-nil s.sent))))
  run-my_app (e ∷ es) s h v t =
      let (ps, made, ran) = go_on (told e) es s (λ s' v' t'. run-my_app es s' h.1 v' t') v t in
      (ps, (made, run-first e es s h.0 ∙ ran))
