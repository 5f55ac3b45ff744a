-- ===== src/Syntax/Build.antt =====
-- lang/python/frenetic/syntax.py: the operators of predicates and policies, and the constructors
-- of header values with their assertions.
use frenetic.Base.{ℕ, true, [], ◌∷◌, Option, none, some, Result, ok, err}
use frenetic.Base.{◌>>=◌, assertion_error}
use frenetic.Base.Int.{ℤ}
use frenetic.Base.Text.{Text}
use frenetic.Value.{Atom, assert_int, assert_text}
use frenetic.Value
use frenetic.Syntax.Ast.{
  Place, physical, HeaderAndValue, switch, eth_src, eth_dst, vlan, vlan_pcp, eth_type, ip_proto,
  ip4_src, ip4_dst, tcp_src_port, tcp_dst_port, Pred, Policy, preds, policies,
}

-- Pred.__and__, Pred.__or__ and Pred.__invert__
infixl 35 ◌&◌
abbrev pub ◌&◌ : Pred → Pred → Pred
p & q = Pred.and (preds (p ∷ q ∷ []))

infixl 30 ◌∣◌
abbrev pub ◌∣◌ : Pred → Pred → Pred
p ∣ q = Pred.or (preds (p ∷ q ∷ []))

abbrev pub ~◌ : Pred → Pred
~◌ p = Pred.not p

-- Policy.__rshift__ and Policy.__or__
infixl 40 ◌>>>◌
abbrev pub ◌>>>◌ : Policy → Policy → Policy
p >>> q = Policy.seq (policies (p ∷ q ∷ []))

infixl 30 ◌⊔◌
abbrev pub ◌⊔◌ : Policy → Policy → Policy
p ⊔ q = Policy.union (policies (p ∷ q ∷ []))

-- Pred.ite, and IfThenElse
abbrev pub pred_ite : Pred → Policy → Policy → Policy
pred_ite p t e = (Policy.filter p >>> t) ⊔ (Policy.filter (~◌ p) >>> e)

abbrev pub if_then_else : Pred → Policy → Policy → Policy
if_then_else p t e = Policy.if_then_else (pred_ite p t e)

-- The shorthands `id` and `drop`
abbrev pub id_policy : Policy
id_policy = Policy.filter Pred.id

abbrev pub drop_policy : Policy
drop_policy = Policy.filter Pred.drop

-- The constructors that assert `type(value) == int and value >= 0`
unfoldable pub int_header : (ℕ → HeaderAndValue) → Atom → Result HeaderAndValue
unfolding assert_int
int_header klass v = assert_int (λ n. true) v >>= λ n. ok (klass n)

-- The constructors that assert a `str` or a `unicode`
unfoldable pub text_header : (Text → HeaderAndValue) → Atom → Result HeaderAndValue
unfolding assert_text
text_header klass v = assert_text v >>= λ s. ok (klass s)

unfoldable pub switch_init : Atom → Result HeaderAndValue
unfolding int_header
switch_init = int_header switch

unfoldable pub vlan_init : Atom → Result HeaderAndValue
unfolding int_header
vlan_init = int_header vlan

unfoldable pub vlan_pcp_init : Atom → Result HeaderAndValue
unfolding int_header
vlan_pcp_init = int_header vlan_pcp

unfoldable pub eth_type_init : Atom → Result HeaderAndValue
unfolding int_header
eth_type_init = int_header eth_type

unfoldable pub ip_proto_init : Atom → Result HeaderAndValue
unfolding int_header
ip_proto_init = int_header ip_proto

unfoldable pub tcp_src_port_init : Atom → Result HeaderAndValue
unfolding int_header
tcp_src_port_init = int_header tcp_src_port

unfoldable pub tcp_dst_port_init : Atom → Result HeaderAndValue
unfolding int_header
tcp_dst_port_init = int_header tcp_dst_port

unfoldable pub eth_src_init : Atom → Result HeaderAndValue
unfolding text_header
eth_src_init = text_header eth_src

unfoldable pub eth_dst_init : Atom → Result HeaderAndValue
unfolding text_header
eth_dst_init = text_header eth_dst

-- The class Physical that is in force: the later of the two of that name.
unfoldable pub physical_init : Atom → Result Place
unfolding assert_int
physical_init v = assert_int (λ n. true) v >>= λ n. ok (physical n)

-- IP4Src and IP4Dst; a mask other than None must be an `int`.
ip4_header : (Text → Option ℤ → HeaderAndValue) → Atom → Option Atom → Result HeaderAndValue
unfolding assert_text
ip4_header klass v none = assert_text v >>= λ s. ok (klass s none)
ip4_header klass v (some (Value.int m)) = assert_text v >>= λ s. ok (klass s (some m))
ip4_header klass v (some _) = assert_text v >>= λ s. err assertion_error

unfoldable pub ip4_src_init : Atom → Option Atom → Result HeaderAndValue
unfolding ip4_header
ip4_src_init = ip4_header ip4_src

unfoldable pub ip4_dst_init : Atom → Option Atom → Result HeaderAndValue
unfolding ip4_header
ip4_dst_init = ip4_header ip4_dst
