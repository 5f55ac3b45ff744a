-- ===== src/Tests/Network.antt =====
-- The theorems on the discovered network, at concrete inputs.
use frenetic.Base.{
  ℕ, Bool, true, false, ◌&&◌, ◌≡◌, refl, ◌↔◌, List, [], ◌∷◌, map, Option, none, some, Bool-cases,
  inl, inr, Result, ok, arith, All, is_some, ◌==◌, if◌then◌else◌,
}
use frenetic.Base.Text.{Text, codes, text_eq}
use frenetic.Syntax.Ast as Ast
use frenetic.Syntax.Ast.{physical, location, Policy}
use frenetic.Syntax.Meaning.{run}
use frenetic.Packet.Defs.{Protocol}
use frenetic.Tests.Frames.{Frame, frames}
use frenetic.Discovery.Graph.{Node, node_eq, switch, host}
use frenetic.Discovery.Graph.Lists.{Graph, ref_at, edge_at, has, lists, lists-IsDiGraph}
use frenetic.Discovery.State.{State, Observer, init, hosts, switches, network_edge}
use frenetic.Discovery.Probe.{ProbeData}
use frenetic.Discovery.Topology.{switch_up, handle_probe}
use frenetic.Discovery.History.{Event, start, run-both_ways}
use frenetic.Discovery.History as History
use frenetic.Discovery.Edge.{has_pair, has_port, network_edge_iff, switch_ref-switch_up}
use frenetic.Discovery.Routing.{build_path, routing_policy}
use frenetic.Discovery.Delivery.{IsWay, IsFrom, is_pair, run-routing_policy}
use frenetic.Discovery.Paths.{hops, ports_at, IsAt, run-build_path}
use mathlib.Core.List.{flatten}
use frenetic.Syntax.Unions.{AreApart}

abbrev probe : ProbeData
probe = record { src_switch = 3; src_port = 2 }

-- The observers, the parser and the serializer of packets.
abbrev updates : Observer → State Graph → Result Policy
updates o s = ok (Policy.set_port (1 ∷ []))

abbrev parse : Text → List Protocol
parse bytes = Protocol.raw bytes ∷ []

abbrev unparse : List Protocol → Text
unparse ps = []

abbrev events : List Event
events = History.up 1 (1 ∷ 2 ∷ []) ∷ History.packet_from 1 2 (codes "x") ∷ History.down 1 ∷ []

run-both_ways_example :
    is_some (
      lists.edge
        (switch 1)
        (switch 2)
        (History.run lists updates parse unparse events
          (start lists updates parse unparse)).network)
    ≡ is_some (
        lists.edge
          (switch 2)
          (switch 1)
          (History.run lists updates parse unparse events
            (start lists updates parse unparse)).network)
run-both_ways_example =
    run-both_ways lists updates parse unparse lists-IsDiGraph events (switch 1) (switch 2)

-- Switches 1 and 2, linked by their ports 3 and 4, and a host at port 1 of switch 1.
abbrev small : State Graph
small = record (init lists) {
  network = record {
    nodes =
        (switch 1, some (1, 1 ∷ 3 ∷ []))
        ∷ (switch 2, some (2, 4 ∷ 5 ∷ []))
        ∷ (host (codes "m"), none)
        ∷ [];
    edges =
        (switch 1, switch 2, some 3)
        ∷ (switch 2, switch 1, some 4)
        ∷ (switch 1, host (codes "m"), some 1)
        ∷ (host (codes "m"), switch 1, none)
        ∷ [];
  };
}

network_edge_iff_example : (has_pair 1 1 (network_edge lists small) ≡ true) ↔ (
    (has_port 1 1 (switches lists small) ≡ true)
    × ((j : Node)
        → is_some (lists.switch_ref j small.network) ≡ true
        → lists.edge (switch 1) j small.network ≡ some (some 1)
        → ⊥))
network_edge_iff_example = network_edge_iff lists small lists-IsDiGraph 1 1

switch_ref-switch_up_example :
    lists.switch_ref
      (switch 3)
      (switch_up lists updates 3 (1 ∷ []) (handle_probe lists updates 1 4 3 1 small).0).0.network
    ≡ none
unfolding ref_at node_eq edge_at has
switch_ref-switch_up_example =
    switch_ref-switch_up lists lists-IsDiGraph updates 1 4 3 1 (1 ∷ []) small refl refl refl

abbrev way : List Node
way = switch 1 ∷ host (codes "m") ∷ []

abbrev steps : List (ℕ × ℕ)
steps = (2, 4) ∷ (1, 1) ∷ []

way-steps : hops lists small.network (switch 2) way ≡ some steps
unfolding hops edge_at node_eq text_eq
way-steps = refl

run-build_path_example :
    (pol : Policy) × (build_path lists small.network way (switch 2) [] ≡ ok pol)
    × All
        (λ h.
          (pkt : Frame)
          → IsAt frames h.0 pkt
          → run frames pkt pol ≡ frames.assign (location (physical h.1)) pkt ∷ [])
        steps
    × ((s : ℕ) (pkt : Frame)
        → IsAt frames s pkt
        → All (λ h. (h.0 == s) ≡ false) steps
        → run frames pkt pol ≡ [])
run-build_path_example =
    run-build_path frames lists small.network (switch 2) way steps way-steps (ground arith)

-- The same with another host at port 5 of switch 2, and the path from the one host to the other.
abbrev two_hosts : State Graph
two_hosts = record small {
  network = record {
    nodes = (host (codes "n"), none) ∷ small.network.nodes;
    edges =
        (switch 2, host (codes "n"), some 5)
        ∷ (host (codes "n"), switch 2, none)
        ∷ small.network.edges;
  };
}

abbrev is_m_to_n : Text → Text → Bool
is_m_to_n a b = text_eq a (codes "m") && text_eq b (codes "n")

abbrev paths : Graph → Node → Node → Option (List Node)
paths g (host a) (host b) =
    if is_m_to_n a b then some (host a ∷ switch 1 ∷ switch 2 ∷ host (codes "n") ∷ []) else none
paths g _ _ = none

abbrev ways : Text → Text → List (ℕ × ℕ)
ways a b = if is_m_to_n a b then (1, 3) ∷ (2, 5) ∷ [] else []

are_ways :
    (a b : Text)
    → text_eq a b ≡ false
    → IsWay lists two_hosts.network (paths two_hosts.network (host a) (host b)) (ways a b)
unfolding hops edge_at node_eq text_eq
are_ways a b h = elim (Bool-cases (is_m_to_n a b)) [
  | inl e ↦ rw e (refl, ((refl, tt), (tt, tt)))
  | inr e ↦ rw e refl
]

two_hosts-AreApart : AreApart text_eq (hosts lists two_hosts)
unfolding hosts flatten text_eq
two_hosts-AreApart = (refl, (refl, tt))

-- A frame on its way, so that what the theorem asks of a packet can hold.
abbrev frame : Frame
frame = record { at_switch = 1; at_port = 1; src = codes "m"; dst = codes "n" }

frame-IsAt : IsAt frames frame.at_switch frame × IsFrom frames frame.src frame.dst frame
frame-IsAt = (λ k. refl, (λ a. refl, λ a. refl))

run-routing_policy_example :
    (pol : Policy) × (routing_policy lists paths two_hosts ≡ ok pol)
    × ((k : ℕ) (src dst : Text) (pkt : Frame)
        → IsAt frames k pkt
        → IsFrom frames src dst pkt
        → run frames pkt pol ≡ (
            if frames.holds (Ast.eth_type 0x800) pkt && is_pair (hosts lists two_hosts) src dst
            then map (λ l. frames.assign (location (physical l)) pkt) (ports_at k (ways src dst))
            else []))
run-routing_policy_example =
    run-routing_policy frames lists two_hosts paths ways are_ways two_hosts-AreApart
