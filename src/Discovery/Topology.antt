-- ===== src/Discovery/Topology.antt =====
-- lang/python/frenetic/examples/discovery/topology.py: the handlers and the policy of Topology.
use frenetic.Base.{
  ℕ, Bool, true, false, not, ◌&&◌, List, [], ◌∷◌, map, Option, none, some, Result, ok, err, ◌>>=◌,
  any, traverse, assertion_error, key_error, ◌==◌, if◌then◌else◌,
}
use mathlib.Core.List.{flatten}
use frenetic.Base.Int.{pos}
use frenetic.Base.Text.{Text, codes}
use frenetic.Value
use frenetic.Value.{atom}
use frenetic.Syntax.Ast.{pipe, location, eth_type, Pred, Policy}
use frenetic.Syntax.Build.{◌>>>◌, ◌⊔◌}
use frenetic.Syntax.Sugar.Tests.{eth_type_eq}
use frenetic.Syntax.Sugar.Sets.{set_port, send_to_controller}
use frenetic.Packet.Defs.{Packet, Protocol}
use frenetic.Packet.Encode.{to_payload}
use frenetic.Discovery.Graph.{Node, switch, host, nobody, DiGraph}
use frenetic.Discovery.State.{
  State, Mode, internal_discovery, host_discovery, other_mode, Observer, Updates, set_mode,
  switches, network_edge, notify, and_after, add_switch, add_host, add_edge, remove_node,
}
use frenetic.Discovery.Probe.{probocol, serialize}

-- `update`, or `pkt_out` to a switch with the data and the policies of the message
pub data Message : Type 0 where
  update : Observer → Policy → Message
  pkt_out : ℕ → Text → List Policy → Message

abbrev updates : Updates → List Message
updates us = map (λ u. update u.0 u.1) us

-- Topology.policy
unfoldable pub sniff : Result Policy
unfolding eth_type_eq
sniff = eth_type_eq (atom (Value.int (pos 0x806)) ∷ []) >>= λ arp.
    ok (Policy.filter arp >>> send_to_controller (codes "http"))

abbrev probe_traffic : Policy
probe_traffic =
    Policy.filter (Pred.test (eth_type probocol)) >>> Policy.mod' (location (pipe (codes "http")))

unfoldable pub topology_policy : Mode → Result Policy
unfolding sniff
topology_policy internal_discovery = sniff >>= λ arp. ok (probe_traffic ⊔ arp)
topology_policy host_discovery = sniff
topology_policy other_mode = err assertion_error

abbrev pub mac_node : Option Text → Node
mac_node none = nobody
mac_node (some mac) = host mac

abbrev pub is_switch : List (ℕ × List ℕ) → ℕ → Bool
is_switch sws sw = any (λ r. r.0 == sw) sws

abbrev pub on_port : ℕ → Option ℕ → Result Bool
on_port port none = err key_error
on_port port (some l) = ok (l == port)

-- The loop over the edges of the switch: whether one of them has the port as its label. An edge
-- without a label is a KeyError.
unfoldable pub on_internal_link : ℕ → List (Node × Option ℕ) → Result Bool
on_internal_link port [] = ok false
on_internal_link port ((n, l) ∷ es) =
    let rest = on_internal_link port es in on_port port l >>= λ b. if b then ok true else rest

module _ {G : Type 0} (d : DiGraph G) (run_update : Observer → State G → Result Policy) where
  -- A handler's state, with the messages or the exception.
  abbrev pub Outcome : Type 0
  Outcome = State G × Result (List Message)

  abbrev pub messages_of : State G × Result Updates → Outcome
  messages_of (s, r) = (s, r >>= λ us. ok (updates us))

  unfoldable pub switch_up : ℕ → List ℕ → State G → Outcome
  unfolding add_switch
  switch_up switch_id ports s = messages_of (add_switch d run_update switch_id ports false s)

  unfoldable pub switch_down : ℕ → State G → Outcome
  unfolding remove_node notify
  switch_down switch_id s =
      messages_of (notify d run_update (remove_node d run_update (switch switch_id) false s).0)

  -- host_discovery, which also sets the timer for the averages
  unfoldable pub host_discovery_starts : State G → Outcome
  unfolding set_mode notify
  host_discovery_starts s = messages_of (notify d run_update (set_mode d host_discovery s))

  unfoldable pub handle_probe : ℕ → ℕ → ℕ → ℕ → State G → State G × Result Updates
  unfolding add_edge
  handle_probe dst_switch dst_port src_switch src_port s =
      and_after d run_update
        (add_edge d run_update (switch dst_switch) (switch src_switch) (some dst_port) false s)
        (add_edge d run_update (switch src_switch) (switch dst_switch) (some src_port) false)

  -- The end of handle_sniff, for a host that has been added.
  abbrev pub attach : ℕ → ℕ → Node → State G → Result Bool → Outcome
  attach sw port mac s (err e) = (s, err e)
  attach sw port mac s (ok true) = (s, ok [])
  attach sw port mac s (ok false) = messages_of (
      and_after d run_update
        (and_after d run_update (add_edge d run_update (switch sw) mac (some port) false s)
          (add_edge d run_update mac (switch sw) none false))
        (notify d run_update))

  unfoldable pub handle_sniff : ℕ → ℕ → Option Text → State G → Outcome
  unfolding add_host switches on_internal_link add_edge notify
  handle_sniff sw port mac s =
      if d.has_node (mac_node mac) s.network
      then (s, ok [])
      else if not (is_switch (switches d s) sw)
      then (s, ok [])
      else (let s' = (add_host d run_update (mac_node mac) false s).0 in
          attach sw port (mac_node mac) s'
            (on_internal_link port (d.out_edges (switch sw) s'.network)))

  module _ (serialize_packet : List Protocol → Text) where
    -- The packet on one port of the edge of the network, but for its own.
    unfoldable pub send_arp_to : Packet → ℕ → ℕ → ℕ × ℕ → Result (List Message)
    unfolding to_payload set_port
    send_arp_to pkt sw port (dst_switch_id, dst_port_id) =
        if dst_switch_id == sw && dst_port_id == port then ok [] else (do
          bytes ← to_payload serialize_packet [] pkt
          p ← set_port (atom (Value.int (pos dst_port_id)) ∷ [])
          ok (pkt_out dst_switch_id bytes (p ∷ []) ∷ []))

    unfoldable pub send_arp : Packet → ℕ → ℕ → State G → Result (List Message)
    unfolding network_edge send_arp_to
    send_arp pkt sw port s =
        traverse (send_arp_to pkt sw port) (network_edge d s) >>= λ mss. ok (flatten mss)

    -- run_probe: a probe on each port of each switch
    unfoldable pub probe_port : ℕ → ℕ → Result Message
    unfolding to_payload set_port serialize
    probe_port switch_id port_id = do
      contents ← serialize (record { src_switch = switch_id; src_port = port_id })
      bytes ←
          to_payload serialize_packet (Protocol.unknown (codes "ProbeData") contents ∷ []) (record {
            switch = none;
            port = none;
            eth_src = some (codes "00:00:de:ad:be:ef");
            eth_dst = some (codes "ef:be:ad:de:00:00");
            eth_type = some probocol;
            vlan = none;
            vlan_pcp = none;
            ip4_src = none;
            ip4_dst = none;
            ip_proto = none;
            tcp_src_port = none;
            tcp_dst_port = none;
            unknown_headers = [];
          })
      p ← set_port (atom (Value.int (pos port_id)) ∷ [])
      ok (pkt_out switch_id bytes (p ∷ []))

    unfoldable pub run_probe : State G → Result (List Message)
    unfolding switches probe_port
    run_probe s =
        traverse (λ r. traverse (probe_port r.0) r.1) (switches d s) >>= λ mss. ok (flatten mss)
