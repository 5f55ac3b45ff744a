-- ===== src/Apps/Firewall/Policy.antt =====
-- lang/python/frenetic/examples/firewall.py: the policy that the firewall installs.
use frenetic.Base.{ℕ, List, [], ◌∷◌, Option, none, some, Result, ok, ◌>>=◌, traverse, or_raise}
use frenetic.Base.{type_error}
use frenetic.Base.Int.{pos}
use frenetic.Base.Text.{Text, codes}
use frenetic.Value
use frenetic.Value.{Atom, atom}
use frenetic.Syntax.Ast.{Pred, Policy, location, query, preds, policies}
use frenetic.Syntax.Build.{◌&◌, ◌∣◌, ~◌, ◌>>>◌, ◌⊔◌, if_then_else}
use frenetic.Syntax.Sugar.Tests.{
  ip4_src_eq, ip4_dst_eq, tcp_src_port_eq, tcp_dst_port_eq, eth_type_eq, ip_proto_eq,
}
use frenetic.Syntax.Sugar.Sets.{send_to_controller}
use frenetic.Apps.Forwarding.{forwarding}
use frenetic.Apps.Firewall.State.{Conn, Allowed, State}

abbrev ip_atom : Option Text → Atom
ip_atom none = Value.other
ip_atom (some s) = Value.str s

abbrev port_atom : Option ℕ → Atom
port_atom none = Value.other
port_atom (some n) = Value.int (pos n)

-- Allowed.to_pred
unfoldable pub to_pred : Conn → Result Pred
unfolding ip4_src_eq ip4_dst_eq tcp_src_port_eq tcp_dst_port_eq
to_pred c = do
  a ← ip4_src_eq (ip_atom c.trusted_ip) none
  b ← tcp_src_port_eq (atom (port_atom c.trusted_port) ∷ [])
  d ← ip4_dst_eq (ip_atom c.untrusted_ip) none
  e ← tcp_dst_port_eq (atom (port_atom c.untrusted_port) ∷ [])
  a' ← ip4_src_eq (ip_atom c.untrusted_ip) none
  b' ← tcp_src_port_eq (atom (port_atom c.untrusted_port) ∷ [])
  d' ← ip4_dst_eq (ip_atom c.trusted_ip) none
  e' ← tcp_dst_port_eq (atom (port_atom c.trusted_port) ∷ [])
  ok ((((a & b) & d) & e) ∣ (((a' & b') & d') & e'))

-- Allowed.query_pol
unfoldable pub query_pol : Allowed → Result Policy
unfolding to_pred
query_pol a =
    to_pred a.conn >>= λ p. ok (Policy.filter p >>> Policy.mod' (location (query a.query_label)))

-- Trusted: the predicates `srcs` and `dsts`
abbrev or_all : List Pred → Pred
or_all ps = Pred.or (preds ps)

unfoldable pub sources : List Text → Result Pred
unfolding ip4_src_eq
sources ips = traverse (λ ip. ip4_src_eq (Value.str ip) none) ips >>= λ ps. ok (or_all ps)

unfoldable pub destinations : List Text → Result Pred
unfolding ip4_dst_eq
destinations ips = traverse (λ ip. ip4_dst_eq (Value.str ip) none) ips >>= λ ps. ok (or_all ps)

abbrev pub internal_pred : Pred → Pred → Pred
internal_pred srcs dsts = srcs & dsts

abbrev pub external_pred : Pred → Pred → Pred
external_pred srcs dsts = (srcs & (~◌ dsts)) ∣ ((~◌ srcs) & dsts)

abbrev net_size : ℕ
net_size = 2

unfoldable pub global_policy : State → Result Policy
unfolding sources destinations to_pred query_pol forwarding eth_type_eq ip_proto_eq
global_policy s = do
  srcs ← sources s.trusted_ips
  dsts ← destinations s.trusted_ips
  allowed ← traverse (λ a. to_pred a.conn) s.allowed
  queries ← traverse query_pol s.allowed
  ip ← eth_type_eq (atom (Value.int (pos 0x800)) ∷ [])
  proto ← ip_proto_eq (atom (Value.int (pos 6)) ∷ atom (Value.int (pos 17)) ∷ [])
  vs ← forwarding net_size
  forwarding_pol ← or_raise type_error vs
  ok (
      Policy.filter (ip & proto)
      >>> if_then_else (internal_pred srcs dsts) forwarding_pol (
          Policy.filter (external_pred srcs dsts)
          >>> if_then_else (or_all allowed) (forwarding_pol ⊔ Policy.union (policies queries))
              (send_to_controller (codes "http"))))
