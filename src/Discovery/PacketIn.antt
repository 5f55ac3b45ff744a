-- ===== src/Discovery/PacketIn.antt =====
-- lang/python/frenetic/examples/discovery/topology.py: Topology.packet_in.
use frenetic.Base.{
  ℕ, List, [], ◌∷◌, ◌++◌, Option, some, Result, ok, err, ◌>>=◌, attribute_error, if◌then◌else◌,
}
use frenetic.Base.Text.{Text, codes}
use frenetic.Syntax.Ast.{Policy}
use frenetic.Packet.Defs.{Packet, Protocol}
use frenetic.Packet.Match.{is_number}
use frenetic.Packet.Decode.{from_payload}
use frenetic.Client.Methods.{packet}
use frenetic.Discovery.Graph.{DiGraph}
use frenetic.Discovery.State.{State, Mode, host_discovery, Observer}
use frenetic.Discovery.Probe.{ProbeData, probocol, parser}
use frenetic.Discovery.Topology.{
  Message, pkt_out, messages_of, handle_probe, handle_sniff, send_arp,
}

-- The attributes of the header that `self.packet(payload, 'ProbeData')` finds; None has none. The parser
-- of the library is that of ProbeData, which has read the header's contents.
unfoldable pub probe_of : Option Protocol → Result ProbeData
unfolding parser
probe_of (some (Protocol.unknown name contents)) = parser contents >>= λ p. ok p.0
probe_of _ = err attribute_error

module _ {G : Type 0} (d : DiGraph G) (run_update : Observer → State G → Result Policy)
    (parse : Text → List Protocol) (serialize_packet : List Protocol → Text) where
  -- The message that drops a packet: `self.pkt_out(switch_id, payload, [])`.
  abbrev pub dropped : ℕ → Text → Message
  dropped switch_id payload = pkt_out switch_id payload []

  -- The rest of a handler, after which the packet is dropped.
  abbrev pub then_drop :
      ℕ → Text → State G → Result (List Message) → State G × Result (List Message)
  then_drop switch_id payload s r = (s, r >>= λ ms. ok (ms ++ dropped switch_id payload ∷ []))

  abbrev pub on_probe : ℕ → ℕ → Text → State G → Result ProbeData → State G × Result (List Message)
  on_probe switch_id port_id payload s (err e) = (s, err e)
  on_probe switch_id port_id payload s (ok p) =
      let o =
        messages_of d run_update
          (handle_probe d run_update switch_id port_id p.src_switch p.src_port s) in
      then_drop switch_id payload o.0 o.1

  abbrev pub arps : Packet → ℕ → ℕ → State G → Mode → Result (List Message)
  arps pkt sw port s host_discovery = send_arp d run_update serialize_packet pkt sw port s
  arps pkt sw port s _ = ok []

  abbrev pub after_sniff :
      Packet → ℕ → ℕ → Text → State G × Result (List Message) → State G × Result (List Message)
  after_sniff pkt sw port payload (s, err e) = (s, err e)
  after_sniff pkt sw port payload (s, ok ms) =
      then_drop sw payload s (arps pkt sw port s s.mode >>= λ out. ok (ms ++ out))

  abbrev pub on_packet : ℕ → ℕ → Text → State G → Result Packet → State G × Result (List Message)
  on_packet sw port payload s (err e) = (s, err e)
  on_packet sw port payload s (ok pkt) =
      if is_number pkt.eth_type probocol
      then on_probe sw port payload s (packet parse payload (codes "ProbeData") >>= probe_of)
      else if is_number pkt.eth_type 0x806
      then after_sniff pkt sw port payload (handle_sniff d run_update sw port pkt.eth_src s)
      else (s, ok (dropped sw payload ∷ []))

  unfoldable pub packet_in : ℕ → ℕ → Text → State G → State G × Result (List Message)
  unfolding probe_of handle_probe handle_sniff send_arp packet from_payload
  packet_in switch_id port_id payload s =
      on_packet switch_id port_id payload s (from_payload parse switch_id port_id payload)
