-- ===== src/Apps/Small/Send.antt =====
-- lang/python/frenetic/examples/packet_in_out.py and silly.py: what both send.
use frenetic.Base.{ℕ, [], ◌∷◌, none, Result, ◌>>=◌}
use frenetic.Json.{Json}
use frenetic.Value.{atom}
use frenetic.Syntax.Sugar.Sets.{set_port}
use frenetic.PacketOut.Defs as Out
use frenetic.PacketOut.Defs.{Payload}
use frenetic.Client.Methods.{pkt_out}
use frenetic.Apps.Flood.Policy.{num}

-- The payload, out of a port.
abbrev pub send_out : ℕ → Payload → ℕ → Result Json
send_out sw payload pt = do
  to ← set_port (atom (num pt) ∷ [])
  pkt_out (num sw) payload (Out.Policies.list (Out.Item.policy to ∷ [])) none none
