-- ===== src/Apps/Firewall/Safety.antt =====
-- lang/python/frenetic/examples/firewall.py: what the handlers leave in the state, and the safety
-- of versions 2 and 3.
use frenetic.Base.{
  ℕ, true, ◌||◌, ◌≡◌, refl, ap, Option, none, some, arith, ◌==◌, if◌then◌else◌, Bool-cases, inl,
  inr,
}
use frenetic.Base.Text.{Text, text_eq→eq, text_eq_refl}
use frenetic.Packet.Defs.{Packet}
use frenetic.Apps.Firewall.State.{
  Conn, State, eq_text, eq_port, same_conn, contains, label, bump, allow, add_pending,
  remove_pending,
}
use frenetic.Apps.Firewall.Handlers.{
  Outcome, send_on, update_then, entry, forth, back, is_outgoing, answer_v2, packet_in_v2,
  by_version, packet_in,
}

eq_text→eq : (a b : Option Text) → eq_text a b ≡ true → a ≡ b
unfolding eq_text
eq_text→eq none none h = refl
eq_text→eq (some a) (some b) h = ap some (text_eq→eq a b h)
eq_text→eq none (some b) h = cc
eq_text→eq (some a) none h = cc

eq_port→eq : (a b : Option ℕ) → eq_port a b ≡ true → a ≡ b
unfolding eq_port
eq_port→eq none none h = refl
eq_port→eq (some a) (some b) h = ground arith
eq_port→eq none (some b) h = cc
eq_port→eq (some a) none h = cc

-- Connections that compare equal are equal.
pub same_conn→eq : (a b : Conn) → same_conn a b ≡ true → a ≡ b
unfolding same_conn
same_conn→eq a b h = ground (
  arith,
  eq_text→eq a.trusted_ip b.trusted_ip,
  eq_port→eq a.trusted_port b.trusted_port,
  eq_text→eq a.untrusted_ip b.untrusted_ip,
  eq_port→eq a.untrusted_port b.untrusted_port,
)

pub eq_text_refl : (a : Option Text) → eq_text a a ≡ true
unfolding eq_text
eq_text_refl none = refl
eq_text_refl (some a) = text_eq_refl a

eq_port_refl : (a : Option ℕ) → eq_port a a ≡ true
unfolding eq_port
eq_port_refl none = refl
eq_port_refl (some a) = ground arith

pub same_conn_refl : (c : Conn) → same_conn c c ≡ true
unfolding same_conn
same_conn_refl c = ground (
  arith,
  eq_text_refl c.trusted_ip,
  eq_port_refl c.trusted_port,
  eq_text_refl c.untrusted_ip,
  eq_port_refl c.untrusted_port,
)

send_on-state : (s : State) (ip : Option Text) → (send_on s ip).state ≡ s
unfolding send_on
send_on-state s ip = ground arith

pub update_then-state : (s : State) (o : Outcome) → o.state ≡ s → (update_then s o).state ≡ s
unfolding update_then
update_then-state s o h = ground arith

-- The state that version 2 leaves, whatever its messages come to.
unfoldable pub state_v2 : State → Packet → ℕ → State
state_v2 s pkt now =
    if is_outgoing s.trusted_ips (forth pkt)
    then add_pending (entry (forth pkt) (label s) now) (bump s)
    else if contains (back pkt) s.pending
    then allow (entry (back pkt) (label (bump s)) now) (remove_pending (back pkt) (bump (bump s)))
    else bump (bump s)

answer_v2-state :
    (s : State) (pkt : Packet) (now : ℕ)
    → (answer_v2 s pkt now).state ≡ (
        if contains (back pkt) s.pending
        then allow (entry (back pkt) (label s) now) (remove_pending (back pkt) (bump s))
        else bump s)
unfolding answer_v2
answer_v2-state s pkt now = elim (Bool-cases (contains (back pkt) s.pending)) [
  | inl e ↦ rw e (update_then-state _ _ (send_on-state _ _))
  | inr e ↦ rw e refl
]

pub packet_in_v2-state :
    (s : State) (pkt : Packet) (now : ℕ) → (packet_in_v2 s pkt now).state ≡ state_v2 s pkt now
unfolding packet_in_v2 state_v2
packet_in_v2-state s pkt now = elim (Bool-cases (is_outgoing s.trusted_ips (forth pkt))) [
  | inl e ↦ rw e (send_on-state _ _)
  | inr e ↦ rw e (answer_v2-state (bump s) pkt now)
]

-- Versions 2 and 3.
abbrev pub IsTwoPhase : State → Type 0
IsTwoPhase s = (s.version == 2 || s.version == 3) ≡ true

by_version-state :
    (s : State) (pkt : Packet) (now : ℕ)
    → IsTwoPhase s
    → (by_version s pkt now).state ≡ state_v2 s pkt now
by_version-state s pkt now h = elim (Bool-cases (s.version == 1)) [
  | inl e ↦ absurd (clash e h)
  | inr e ↦ rw e (rw h (packet_in_v2-state s pkt now))
]
  where
    clash : (s.version == 1) ≡ true → IsTwoPhase s → ⊥
    clash e h = ground arith

-- In versions 2 and 3 every packet leads to the state of version 2.
pub packet_in-state :
    (s : State) (pkt : Packet) (now : ℕ)
    → IsTwoPhase s
    → (packet_in s pkt now).state ≡ state_v2 s pkt now
unfolding packet_in
packet_in-state s pkt now h = ground (arith, by_version-state s pkt now)
