-- ===== src/Syntax/Wire/Lower.antt =====
-- The policies of the controller that stand for those of lang/python/frenetic/syntax.py, and the
-- values that the numbers on the wire can carry.
use frenetic.Base.{
  ℕ, Bool, true, false, ◌&&◌, List, [], ◌∷◌, none, some, is_some, map, all, ltb, ◌^◌,
}
use frenetic.Base.Int.{pos, negsuc}
use frenetic.Syntax.Ast.{
  physical, HeaderAndValue, switch, location, eth_src, eth_dst, vlan, vlan_pcp, eth_type, ip_proto,
  ip4_src, ip4_dst, tcp_src_port, tcp_dst_port, Pred, Preds, Policy, Policies,
}
use frenetic.Syntax.Meaning.{full}
use frenetic.Netkat.Ast as Netkat
use frenetic.Netkat.Address.{mac_of_string, ip_of_string}
use frenetic.Netkat.Smart.{mk_big_and, mk_big_or, mk_big_union, mk_big_seq}

unfoldable mutual
  pub lower_pred : Pred → Netkat.Pred
  lower_pred (Pred.and ps) = mk_big_and (lower_preds ps)
  lower_pred (Pred.or ps) = mk_big_or (lower_preds ps)
  lower_pred (Pred.not p) = Netkat.Pred.neg (lower_pred p)
  lower_pred Pred.id = Netkat.Pred.true
  lower_pred Pred.drop = Netkat.Pred.false
  lower_pred (Pred.test hv) = Netkat.Pred.test (full hv)
  lower_pred (Pred.multi_pred p) = lower_pred p

  pub lower_preds : Preds → List Netkat.Pred
  lower_preds Preds.nil = []
  lower_preds (Preds.cons p ps) = lower_pred p ∷ lower_preds ps

abbrev pub lower_port : ℕ → Netkat.Policy
lower_port n = Netkat.Policy.mod' (location (physical n))

unfoldable pub lower_ports : List ℕ → Netkat.Policy
lower_ports [] = Netkat.Policy.filter Netkat.Pred.false
lower_ports (n ∷ []) = lower_port n
lower_ports (n ∷ k ∷ ns) = mk_big_union (map lower_port (n ∷ k ∷ ns))

unfoldable mutual
  pub lower : Policy → Netkat.Policy
  lower (Policy.filter p) = Netkat.Policy.filter (lower_pred p)
  lower (Policy.mod' hv) = Netkat.Policy.mod' (full hv)
  lower (Policy.union ps) = mk_big_union (lower_list ps)
  lower (Policy.seq ps) = mk_big_seq (lower_list ps)
  lower (Policy.if_then_else p) = lower p
  lower (Policy.set_port ns) = lower_ports ns
  lower (Policy.single_policy p) = lower p

  pub lower_list : Policies → List Netkat.Policy
  lower_list Policies.nil = []
  lower_list (Policies.cons p ps) = lower p ∷ lower_list ps

-- A switch has 63 bits, a port and a mask 32, another number 62; an address is one that the controller
-- can read.
abbrev pub hv_in_range : HeaderAndValue → Bool
hv_in_range (switch v) = ltb v (2 ^ 63)
hv_in_range (location (physical p)) = ltb p (2 ^ 32)
hv_in_range (location place) = true
hv_in_range (eth_src s) = is_some (mac_of_string s)
hv_in_range (eth_dst s) = is_some (mac_of_string s)
hv_in_range (ip4_src s none) = is_some (ip_of_string s)
hv_in_range (ip4_src s (some (pos m))) = is_some (ip_of_string s) && ltb m (2 ^ 32)
hv_in_range (ip4_src s (some (negsuc m))) = false
hv_in_range (ip4_dst s none) = is_some (ip_of_string s)
hv_in_range (ip4_dst s (some (pos m))) = is_some (ip_of_string s) && ltb m (2 ^ 32)
hv_in_range (ip4_dst s (some (negsuc m))) = false
hv_in_range (vlan v) = ltb v (2 ^ 62)
hv_in_range (vlan_pcp v) = ltb v (2 ^ 62)
hv_in_range (eth_type v) = ltb v (2 ^ 62)
hv_in_range (ip_proto v) = ltb v (2 ^ 62)
hv_in_range (tcp_src_port v) = ltb v (2 ^ 62)
hv_in_range (tcp_dst_port v) = ltb v (2 ^ 62)

unfoldable mutual
  pub pred_in_range : Pred → Bool
  pred_in_range (Pred.and ps) = preds_in_range ps
  pred_in_range (Pred.or ps) = preds_in_range ps
  pred_in_range (Pred.not p) = pred_in_range p
  pred_in_range Pred.id = true
  pred_in_range Pred.drop = true
  pred_in_range (Pred.test hv) = hv_in_range hv
  pred_in_range (Pred.multi_pred p) = pred_in_range p

  pub preds_in_range : Preds → Bool
  preds_in_range Preds.nil = true
  preds_in_range (Preds.cons p ps) = pred_in_range p && preds_in_range ps

unfoldable mutual
  pub in_range : Policy → Bool
  in_range (Policy.filter p) = pred_in_range p
  in_range (Policy.mod' hv) = hv_in_range hv
  in_range (Policy.union ps) = all_in_range ps
  in_range (Policy.seq ps) = all_in_range ps
  in_range (Policy.if_then_else p) = in_range p
  in_range (Policy.set_port ns) = all (λ n. ltb n (2 ^ 32)) ns
  in_range (Policy.single_policy p) = in_range p

  pub all_in_range : Policies → Bool
  all_in_range Policies.nil = true
  all_in_range (Policies.cons p ps) = in_range p && all_in_range ps

-- Every SetPort names a port.
unfoldable mutual
  pub has_ports : Policy → Bool
  has_ports (Policy.filter p) = true
  has_ports (Policy.mod' hv) = true
  has_ports (Policy.union ps) = all_have_ports ps
  has_ports (Policy.seq ps) = all_have_ports ps
  has_ports (Policy.if_then_else p) = has_ports p
  has_ports (Policy.set_port []) = false
  has_ports (Policy.set_port (n ∷ ns)) = true
  has_ports (Policy.single_policy p) = has_ports p

  pub all_have_ports : Policies → Bool
  all_have_ports Policies.nil = true
  all_have_ports (Policies.cons p ps) = has_ports p && all_have_ports ps
