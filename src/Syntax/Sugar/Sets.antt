-- ===== src/Syntax/Sugar/Sets.antt =====
-- lang/python/frenetic/syntax.py: SetPort and the SinglePolicy classes.
use frenetic.Base.{List, none, Result, ok, ◌>>=◌, traverse}
use frenetic.Base.Text.{Text}
use frenetic.Value.{Atom, Arg, spread}
use frenetic.Syntax.Ast.{location, pipe, query, Policy}
use frenetic.Syntax.Build.{
  vlan_init, vlan_pcp_init, eth_type_init, ip_proto_init, tcp_src_port_init, tcp_dst_port_init,
  eth_src_init, eth_dst_init, ip4_src_init, ip4_dst_init,
}
use frenetic.Syntax.Sugar.Loops.{checked, int_policy, str_policy, is_port}

unfoldable pub set_port : List Arg → Result Policy
unfolding checked spread
set_port values = do vs ← spread values; ns ← traverse (checked is_port) vs; ok (Policy.set_port ns)

abbrev single : Result Policy → Result Policy
single r = r >>= λ p. ok (Policy.single_policy p)

unfoldable pub set_eth_src : Atom → Result Policy
unfolding str_policy eth_src_init
set_eth_src value = single (str_policy eth_src_init value)

unfoldable pub set_eth_dst : Atom → Result Policy
unfolding str_policy eth_dst_init
set_eth_dst value = single (str_policy eth_dst_init value)

unfoldable pub set_vlan : Atom → Result Policy
unfolding int_policy vlan_init
set_vlan value = single (int_policy vlan_init value)

unfoldable pub set_vlan_pcp : Atom → Result Policy
unfolding int_policy vlan_pcp_init
set_vlan_pcp value = single (int_policy vlan_pcp_init value)

unfoldable pub set_eth_type : Atom → Result Policy
unfolding int_policy eth_type_init
set_eth_type value = single (int_policy eth_type_init value)

unfoldable pub set_ip_proto : Atom → Result Policy
unfolding int_policy ip_proto_init
set_ip_proto value = single (int_policy ip_proto_init value)

unfoldable pub set_tcp_src_port : Atom → Result Policy
unfolding int_policy tcp_src_port_init
set_tcp_src_port value = single (int_policy tcp_src_port_init value)

unfoldable pub set_tcp_dst_port : Atom → Result Policy
unfolding int_policy tcp_dst_port_init
set_tcp_dst_port value = single (int_policy tcp_dst_port_init value)

-- SetIP4Src and SetIP4Dst give no mask.
unfoldable pub set_ip4_src : Atom → Result Policy
unfolding ip4_src_init
set_ip4_src value = single (ip4_src_init value none >>= λ hv. ok (Policy.mod' hv))

unfoldable pub set_ip4_dst : Atom → Result Policy
unfolding ip4_dst_init
set_ip4_dst value = single (ip4_dst_init value none >>= λ hv. ok (Policy.mod' hv))

-- SendToController and SendToQuery
abbrev pub send_to_controller : Text → Policy
send_to_controller value = Policy.single_policy (Policy.mod' (location (pipe value)))

abbrev pub send_to_query : Text → Policy
send_to_query value = Policy.single_policy (Policy.mod' (location (query value)))
