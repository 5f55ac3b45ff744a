-- ===== src/Apps/Firewall/Handlers.antt =====
-- lang/python/frenetic/examples/firewall.py: the handlers of packets and of the clean-up. What was
-- written before an exception stays written, so a handler returns its state beside its outcome,
-- with the messages that it sent to the controller.
use frenetic.Base.{
  ℕ, ◌+◌, Bool, true, ◌&&◌, ◌||◌, not, List, [], ◌∷◌, ◌++◌, Option, some, Result, ok, err,
  assertion_error, value_error, ltb, leb, ◌==◌, if◌then◌else◌,
}
use frenetic.Base.Int.{pos}
use frenetic.Base.Text.{Text, codes}
use frenetic.Value
use frenetic.Value.{atom}
use frenetic.Syntax.Ast.{Policy}
use frenetic.Syntax.Sugar.Sets.{set_port}
use frenetic.Packet.Defs.{Packet}
use frenetic.Packet.Match.{is_number}
use frenetic.Apps.Firewall.State.{
  Conn, Allowed, State, is_trusted, eq_text, contains, same_conn, label, bump, allow,
  remove_allowed, add_pending, remove_pending,
}
use frenetic.Apps.Firewall.Policy.{global_policy}

-- A message: `self.update(policy)`, or `self.pkt_out(switch_id, payload, actions)`.
pub data Message : Type 0 where
  update : Policy → Message
  pkt_out : List Policy → Message

pub record Outcome : Type 0 where
  pub result : Result (Unit {0})
  pub state : State
  pub sent : List Message

abbrev pub done : State → List Message → Outcome
done s out = record { result = ok tt; state = s; sent = out }

-- The rest of a handler, after messages that it has sent.
abbrev pub after : List Message → Outcome → Outcome
after out o = record o { sent = out ++ o.sent }

-- `1 if dst_ip == "10.0.0.1" else 2 if dst_ip == "10.0.0.2" else 0`
unfoldable pub hack_port : Option Text → ℕ
unfolding eq_text
hack_port dst_ip =
    if eq_text dst_ip (some (codes "10.0.0.1"))
    then 1
    else if eq_text dst_ip (some (codes "10.0.0.2"))
    then 2
    else 0

-- `self.pkt_out(switch_id, payload, [SetPort(pt)])`
unfoldable pub send_on : State → Option Text → Outcome
unfolding hack_port
send_on s dst_ip = elim (set_port (atom (Value.int (pos (hack_port dst_ip))) ∷ [])) [
  | ok p ↦ done s (pkt_out (p ∷ []) ∷ [])
  | err e ↦ record { result = err e; state = s; sent = [] }
]

-- `self.update(self.global_policy())`, and then the rest
unfoldable pub update_then : State → Outcome → Outcome
update_then s rest = elim (global_policy s) [
  | ok p ↦ after (update p ∷ []) rest
  | err e ↦ record { result = err e; state = s; sent = [] }
]

abbrev pub entry : Conn → Text → ℕ → Allowed
entry c l now = record { conn = c; query_label = l; last_count = 0; time_created = now }

-- The addresses and ports of a packet, and those of a packet that answers it.
abbrev pub forth : Packet → Conn
forth pkt = record {
  trusted_ip = pkt.ip4_src;
  trusted_port = pkt.tcp_src_port;
  untrusted_ip = pkt.ip4_dst;
  untrusted_port = pkt.tcp_dst_port;
}

abbrev pub back : Packet → Conn
back pkt = record {
  trusted_ip = pkt.ip4_dst;
  trusted_port = pkt.tcp_dst_port;
  untrusted_ip = pkt.ip4_src;
  untrusted_port = pkt.tcp_src_port;
}

-- `src_ip in self.state.trusted.ips and not (dst_ip in self.state.trusted.ips)`
abbrev pub is_outgoing : List Text → Conn → Bool
is_outgoing ips c = is_trusted ips c.trusted_ip && not (is_trusted ips c.untrusted_ip)

unfoldable pub packet_in_v1 : State → Packet → ℕ → Outcome
packet_in_v1 s pkt now =
    if not (is_outgoing s.trusted_ips (forth pkt))
    then done s (pkt_out [] ∷ [])
    else (let s' = allow (entry (forth pkt) (label s) now) (bump s) in
        update_then s' (send_on s' pkt.ip4_dst))

-- The case of a packet that does not come from a trusted address to an untrusted one.
unfoldable pub answer_v2 : State → Packet → ℕ → Outcome
answer_v2 s pkt now =
    let s₁ = bump s in
    if contains (back pkt) s.pending
    then (let s₂ = allow (entry (back pkt) (label s) now) (remove_pending (back pkt) s₁) in
        update_then s₂ (send_on s₂ pkt.ip4_dst))
    else done s₁ (pkt_out [] ∷ [])

unfoldable pub packet_in_v2 : State → Packet → ℕ → Outcome
packet_in_v2 s pkt now =
    if is_outgoing s.trusted_ips (forth pkt)
    then send_on (add_pending (entry (forth pkt) (label s) now) (bump s)) pkt.ip4_dst
    else answer_v2 (bump s) pkt now

abbrev pub by_version : State → Packet → ℕ → Outcome
by_version s pkt now =
    if s.version == 1
    then packet_in_v1 s pkt now
    else if s.version == 2 || s.version == 3
    then packet_in_v2 s pkt now
    else record { result = err assertion_error; state = s; sent = [] }

-- A packet that is neither TCP nor UDP is dropped, and then handled all the same.
unfoldable pub packet_in : State → Packet → ℕ → Outcome
packet_in s pkt now =
    if not (is_number pkt.ip_proto 6) && not (is_number pkt.ip_proto 17)
    then after (pkt_out [] ∷ []) (by_version s pkt now)
    else by_version s pkt now

abbrev clean_delay : ℕ
clean_delay = 3

-- clean_callback: the count of a connection has been read. The new state, and whether the policy has
-- to be sent again; the entry's count is that of the one object which the list holds.
unfoldable pub count_of : Conn → ℕ → List Allowed → List Allowed
unfolding same_conn
count_of c n [] = []
count_of c n (a ∷ xs) =
    if same_conn a.conn c then record a { last_count = n } ∷ xs else a ∷ count_of c n xs

unfoldable pub clean_callback : State → Allowed → ℕ → Bool → Result (State × Bool)
clean_callback s a curr_bytes should_clean =
    if leb a.last_count curr_bytes
    then (if a.last_count == curr_bytes
        then (if contains a.conn s.allowed
            then ok (remove_allowed a.conn s, true)
            else err value_error)
        else ok (record s { allowed = count_of a.conn curr_bytes s.allowed }, should_clean))
    else err assertion_error

-- The last lines of run_clean: pending connections that are too old are taken out.
unfoldable pub drop_expired : ℕ → List Allowed → List Allowed
drop_expired now [] = []
drop_expired now (a ∷ xs) =
    if ltb (a.time_created + clean_delay) now then drop_expired now xs else a ∷ drop_expired now xs

abbrev pub expire : State → ℕ → State
expire s now = record s { pending = drop_expired now s.pending }
