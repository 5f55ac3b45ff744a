-- ===== src/Apps/Small/PacketInOut.antt =====
-- lang/python/frenetic/examples/packet_in_out.py
use frenetic.Base.{ℕ, ◌||◌, Result, ok, err, ◌>>=◌, assertion_error, ◌==◌, if◌then◌else◌}
use frenetic.Json.{Json}
use frenetic.PacketOut.Defs.{Payload}
use frenetic.Apps.Small.Send.{send_out}

unfoldable pub other_port : ℕ → Result ℕ
other_port pt = if pt == 1 || pt == 2 then ok (if pt == 1 then 2 else 1) else err assertion_error

unfoldable pub packet_in : ℕ → ℕ → Payload → Result Json
unfolding other_port
packet_in sw pt payload = other_port pt >>= λ to. send_out sw payload to
