-- ===== src/Discovery/History.antt =====
-- lang/python/frenetic/examples/discovery: what holds of the network after any events.
use frenetic.Base.{
  ℕ, ◌≡◌, refl, List, [], ◌∷◌, Result, ok, err, ◌>>=◌, is_some, Bool-cases, inl, inr,
}
use frenetic.Base.Text.{Text, codes}
use frenetic.Syntax.Ast.{Policy}
use frenetic.Packet.Defs.{Packet, Protocol}
use frenetic.Packet.Match.{is_number}
use frenetic.Packet.Decode.{from_payload}
use frenetic.Client.Methods.{packet}
use frenetic.Discovery.Graph.{Node, DiGraph, IsDiGraph}
use frenetic.Discovery.State.{State, Observer, topology, routing, init, register}
use frenetic.Discovery.Probe.{ProbeData, probocol}
use frenetic.Discovery.Topology.{Message, switch_up, switch_down, host_discovery_starts}
use frenetic.Discovery.PacketIn.{probe_of, on_probe, after_sniff, on_packet, packet_in}
use frenetic.Discovery.Symmetry.{
  IsSymmetric, switch_up-IsSymmetric, switch_down-IsSymmetric, handle_probe-IsSymmetric,
  handle_sniff-IsSymmetric, notify-IsSymmetric,
}

pub data Event : Type 0 where
  up : ℕ → List ℕ → Event
  down : ℕ → Event
  packet_from : ℕ → ℕ → Text → Event
  hosts_next : Event

module _ {G : Type 0} (d : DiGraph G) (run_update : Observer → State G → Result Policy)
    (parse : Text → List Protocol) (serialize_packet : List Protocol → Text) where
  unfoldable pub step : Event → State G → State G
  step (up sw ports) s = (switch_up d run_update sw ports s).0
  step (down sw) s = (switch_down d run_update sw s).0
  step (packet_from sw port payload) s =
      (packet_in d run_update parse serialize_packet sw port payload s).0
  step hosts_next s = (host_discovery_starts d run_update s).0

  unfoldable pub run : List Event → State G → State G
  unfolding step
  run [] s = s
  run (e ∷ es) s = run es (step e s)

  -- The state that `main` starts with: both applications are registered.
  abbrev pub start : State G
  start = register d routing (register d topology (init d))

  module _ (laws : IsDiGraph d) where
    on_probe-IsSymmetric :
        (sw port : ℕ) (payload : Text) (s : State G) (r : Result ProbeData)
        → IsSymmetric d s.network
        → IsSymmetric d (on_probe d run_update parse serialize_packet sw port payload s r).0.network
    on_probe-IsSymmetric sw port payload s (ok p) h =
        handle_probe-IsSymmetric d laws run_update sw port p.src_switch p.src_port s h
    on_probe-IsSymmetric sw port payload s (err e) h = h

    after_sniff-IsSymmetric :
        (pkt : Packet) (sw port : ℕ) (payload : Text) (o : State G × Result (List Message))
        → IsSymmetric d o.0.network
        → IsSymmetric d
            (after_sniff d run_update parse serialize_packet pkt sw port payload o).0.network
    after_sniff-IsSymmetric pkt sw port payload (s, ok ms) h = h
    after_sniff-IsSymmetric pkt sw port payload (s, err e) h = h

    on_packet-IsSymmetric :
        (sw port : ℕ) (payload : Text) (s : State G) (r : Result Packet)
        → IsSymmetric d s.network
        → IsSymmetric d
            (on_packet d run_update parse serialize_packet sw port payload s r).0.network
    on_packet-IsSymmetric sw port payload s (err e) h = h
    on_packet-IsSymmetric sw port payload s (ok pkt) h =
        elim (Bool-cases (is_number pkt.eth_type probocol)) [
          | inl e ↦ rw e (
              on_probe-IsSymmetric sw port payload s
                (packet parse payload (codes "ProbeData") >>= probe_of) h)
          | inr e ↦ elim (Bool-cases (is_number pkt.eth_type 0x806)) [
            | inl f ↦ rw e (
                rw f (
                  after_sniff-IsSymmetric pkt sw port payload _
                    (handle_sniff-IsSymmetric d laws run_update sw port pkt.eth_src s h)))
            | inr f ↦ rw e (rw f h)
          ]
        ]

    step-IsSymmetric :
        (e : Event) (s : State G) → IsSymmetric d s.network → IsSymmetric d (step e s).network
    unfolding step packet_in host_discovery_starts
    step-IsSymmetric (up sw ports) s h = switch_up-IsSymmetric d laws run_update sw ports s h
    step-IsSymmetric (down sw) s h = switch_down-IsSymmetric d laws run_update sw s h
    step-IsSymmetric (packet_from sw port payload) s h =
        on_packet-IsSymmetric sw port payload s (from_payload parse sw port payload) h
    step-IsSymmetric hosts_next s h = notify-IsSymmetric d laws run_update _ h

    run-IsSymmetric :
        (es : List Event) (s : State G) → IsSymmetric d s.network → IsSymmetric d (run es s).network
    unfolding run
    run-IsSymmetric [] s h = h
    run-IsSymmetric (e ∷ es) s h = run-IsSymmetric es (step e s) (step-IsSymmetric e s h)

    -- On any graphs that behave as documented, and whatever the parser, the serializer and the observers
    -- do: after any events from the start, a link from one node to another is one from the other to the one.
    pub run-both_ways :
        (es : List Event) (i j : Node)
        → is_some (d.edge i j (run es start).network) ≡ is_some (d.edge j i (run es start).network)
    unfolding register
    run-both_ways es =
        (run-IsSymmetric es start (record {
          both_ways = λ i j. rw (laws.edge-empty i j) (rw (laws.edge-empty j i) refl);
        })).both_ways
