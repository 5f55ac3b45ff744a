-- ===== src/Packet/Match.antt =====
-- lang/python/frenetic/packet.py: Packet.matches.
use frenetic.Base.{
  ℕ, Bool, true, false, not, ◌∷◌, ◌++◌, Option, none, some, Result, ok, err, ◌>>=◌, attribute_error,
  ◌==◌, if◌then◌else◌,
}
use frenetic.Base.Int.{ℤ, pos}
use frenetic.Base.Text.{Text, text_eq}
use frenetic.NetUtils.Defs.{str_int, net_mask, ipv4_to_int, mask_bits, ip_in_network}
use frenetic.Syntax.Ast.{
  physical, HeaderAndValue, switch, location, eth_src, eth_dst, vlan, vlan_pcp, eth_type, ip_proto,
  ip4_src, ip4_dst, tcp_src_port, tcp_dst_port, Pred, Preds,
}
use frenetic.Packet.Defs.{Packet}

-- `attribute == value`; None equals no value.
abbrev pub is_number : Option ℕ → ℕ → Bool
is_number none v = false
is_number (some a) v = a == v

abbrev pub is_text : Option Text → Text → Bool
is_text none v = false
is_text (some a) v = text_eq a v

-- The attribute `mask`, or 32 where the object has none.
abbrev mask_or_32 : Option ℤ → ℤ
mask_or_32 none = pos 32
mask_or_32 (some m) = m

-- `value + "/" + str(mask)`
abbrev pub cidr_value : Text → Option ℤ → Text
cidr_value value mask = value ++ b'/' ∷ str_int (mask_or_32 mask)

-- NetUtils.ip_in_network on an attribute; where it is None, it has no `split`.
unfoldable pub in_network : Option Text → Text → Result Bool
in_network (some src_ip) net = ip_in_network src_ip net
in_network none net = do
  (net', mask) ← net_mask net
  _ ← ipv4_to_int net'
  _ ← mask_bits mask
  err attribute_error

-- The case of a Test. Only a physical location has the attribute `port`.
unfoldable pub match_test : Packet → HeaderAndValue → Result Bool
unfolding in_network text_eq
match_test pkt (switch v) = ok (is_number pkt.switch v)
match_test pkt (location (physical p)) = ok (is_number pkt.port p)
match_test pkt (location _) = err attribute_error
match_test pkt (eth_src v) = ok (is_text pkt.eth_src v)
match_test pkt (eth_dst v) = ok (is_text pkt.eth_dst v)
match_test pkt (vlan v) = ok (is_number pkt.vlan v)
match_test pkt (vlan_pcp v) = ok (is_number pkt.vlan_pcp v)
match_test pkt (eth_type v) = ok (is_number pkt.eth_type v)
match_test pkt (ip_proto v) = ok (is_number pkt.ip_proto v)
match_test pkt (ip4_src v m) = in_network pkt.ip4_src (cidr_value v m)
match_test pkt (ip4_dst v m) = in_network pkt.ip4_dst (cidr_value v m)
match_test pkt (tcp_src_port v) = ok (is_number pkt.tcp_src_port v)
match_test pkt (tcp_dst_port v) = ok (is_number pkt.tcp_dst_port v)

unfoldable mutual
  pub matches : Packet → Pred → Result Bool
  matches pkt Pred.id = ok true
  matches pkt Pred.drop = ok false
  matches pkt (Pred.and ps) = match_all pkt ps
  matches pkt (Pred.or ps) = match_any pkt ps
  matches pkt (Pred.not p) = matches pkt p >>= λ b. ok (not b)
  matches pkt (Pred.multi_pred p) = matches pkt p
  matches pkt (Pred.test hv) = match_test pkt hv

  -- `if not self.matches(p): return False`
  pub match_all : Packet → Preds → Result Bool
  match_all pkt Preds.nil = ok true
  match_all pkt (Preds.cons p ps) =
      let rest = match_all pkt ps in matches pkt p >>= λ b. if b then rest else ok false

  -- `if self.matches(p): return True`
  pub match_any : Packet → Preds → Result Bool
  match_any pkt Preds.nil = ok false
  match_any pkt (Preds.cons p ps) =
      let rest = match_any pkt ps in matches pkt p >>= λ b. if b then ok true else rest
