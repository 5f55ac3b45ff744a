-- ===== src/Apps/Small/Silly.antt =====
-- lang/python/frenetic/examples/silly.py: a packet goes back where it came from.
use frenetic.Base.{ℕ, Result}
use frenetic.Json.{Json}
use frenetic.PacketOut.Defs.{Payload}
use frenetic.Apps.Small.Send.{send_out}

unfoldable pub packet_in : ℕ → ℕ → Payload → Result Json
packet_in switch_id port_id payload = send_out switch_id payload port_id
