-- ===== src/Syntax/Sugar/Tests.antt =====
-- lang/python/frenetic/syntax.py: the MultiPred classes, SwitchEq to TCPDstPortNotEq.
use frenetic.Base.{List, [], ◌∷◌, Option, Result, ok, err, ◌>>=◌, index_error, traverse}
use frenetic.Base.Int.{pos}
use frenetic.Value.{Atom, int, Arg, spread}
use frenetic.Syntax.Ast.{HeaderAndValue, location, Pred, preds}
use frenetic.Syntax.Build.{
  switch_init, vlan_init, vlan_pcp_init, eth_type_init, ip_proto_init, tcp_src_port_init,
  tcp_dst_port_init, eth_src_init, eth_dst_init, physical_init, ip4_src_init, ip4_dst_init,
}
use frenetic.Syntax.Sugar.Loops.{checked, test_of, init_int_eq, init_str_eq, is_port}

-- A MultiPred holds what its constructor expands to.
abbrev pub multi : Result Pred → Result Pred
multi r = r >>= λ p. ok (Pred.multi_pred p)

-- A ...NotEq holds the negation of the ...Eq object of the same arguments.
abbrev pub multi_not : Result Pred → Result Pred
multi_not r = multi (r >>= λ p. ok (Pred.not p))

unfoldable pub switch_eq : List Arg → Result Pred
unfolding switch_init
switch_eq values = multi (init_int_eq switch_init values)

-- `Location(Physical(v))`
unfoldable pub port_location : Atom → Result HeaderAndValue
unfolding physical_init
port_location v = physical_init v >>= λ p. ok (location p)

-- `Or(expanded_preds)` or `expanded_preds[0]`, which fails on an empty list.
abbrev pub join_ports : List Pred → Result Pred
join_ports [] = err index_error
join_ports (p ∷ []) = ok p
join_ports (p ∷ q ∷ ps) = ok (Pred.or (preds (p ∷ q ∷ ps)))

unfoldable pub port_eq : List Arg → Result Pred
unfolding checked spread port_location
port_eq values = multi (do
  vs ← spread values
  ns ← traverse (checked is_port) vs
  expanded ← traverse (λ n. test_of port_location (int (pos n))) ns
  join_ports expanded)

unfoldable pub eth_src_eq : List Arg → Result Pred
unfolding eth_src_init
eth_src_eq values = multi (init_str_eq eth_src_init values)

unfoldable pub eth_dst_eq : List Arg → Result Pred
unfolding eth_dst_init
eth_dst_eq values = multi (init_str_eq eth_dst_init values)

unfoldable pub vlan_eq : List Arg → Result Pred
unfolding vlan_init
vlan_eq values = multi (init_int_eq vlan_init values)

unfoldable pub vlan_pcp_eq : List Arg → Result Pred
unfolding vlan_pcp_init
vlan_pcp_eq values = multi (init_int_eq vlan_pcp_init values)

unfoldable pub eth_type_eq : List Arg → Result Pred
unfolding eth_type_init
eth_type_eq values = multi (init_int_eq eth_type_init values)

unfoldable pub ip_proto_eq : List Arg → Result Pred
unfolding ip_proto_init
ip_proto_eq values = multi (init_int_eq ip_proto_init values)

unfoldable pub tcp_src_port_eq : List Arg → Result Pred
unfolding tcp_src_port_init
tcp_src_port_eq values = multi (init_int_eq tcp_src_port_init values)

unfoldable pub tcp_dst_port_eq : List Arg → Result Pred
unfolding tcp_dst_port_init
tcp_dst_port_eq values = multi (init_int_eq tcp_dst_port_init values)

-- The first assertion of IP4SrcEq is never false, the second is that of IP4Src.
unfoldable pub ip4_src_eq : Atom → Option Atom → Result Pred
unfolding ip4_src_init
ip4_src_eq value mask = multi (ip4_src_init value mask >>= λ hv. ok (Pred.test hv))

unfoldable pub ip4_dst_eq : Atom → Option Atom → Result Pred
unfolding ip4_dst_init
ip4_dst_eq value mask = multi (ip4_dst_init value mask >>= λ hv. ok (Pred.test hv))

unfoldable pub switch_not_eq : List Arg → Result Pred
unfolding switch_eq
switch_not_eq values = multi_not (switch_eq values)

unfoldable pub port_not_eq : List Arg → Result Pred
unfolding port_eq
port_not_eq values = multi_not (port_eq values)

unfoldable pub eth_src_not_eq : List Arg → Result Pred
unfolding eth_src_eq
eth_src_not_eq values = multi_not (eth_src_eq values)

unfoldable pub eth_dst_not_eq : List Arg → Result Pred
unfolding eth_dst_eq
eth_dst_not_eq values = multi_not (eth_dst_eq values)

unfoldable pub vlan_not_eq : List Arg → Result Pred
unfolding vlan_eq
vlan_not_eq values = multi_not (vlan_eq values)

unfoldable pub vlan_pcp_not_eq : List Arg → Result Pred
unfolding vlan_pcp_eq
vlan_pcp_not_eq values = multi_not (vlan_pcp_eq values)

unfoldable pub eth_type_not_eq : List Arg → Result Pred
unfolding eth_type_eq
eth_type_not_eq values = multi_not (eth_type_eq values)

unfoldable pub ip_proto_not_eq : List Arg → Result Pred
unfolding ip_proto_eq
ip_proto_not_eq values = multi_not (ip_proto_eq values)

unfoldable pub ip4_src_not_eq : Atom → Option Atom → Result Pred
unfolding ip4_src_eq
ip4_src_not_eq value mask = multi_not (ip4_src_eq value mask)

unfoldable pub ip4_dst_not_eq : Atom → Option Atom → Result Pred
unfolding ip4_dst_eq
ip4_dst_not_eq value mask = multi_not (ip4_dst_eq value mask)

unfoldable pub tcp_src_port_not_eq : List Arg → Result Pred
unfolding tcp_src_port_eq
tcp_src_port_not_eq values = multi_not (tcp_src_port_eq values)

unfoldable pub tcp_dst_port_not_eq : List Arg → Result Pred
unfolding tcp_dst_port_eq
tcp_dst_port_not_eq values = multi_not (tcp_dst_port_eq values)
