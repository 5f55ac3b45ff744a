-- ===== src/Syntax/Ast.antt =====
-- lang/python/frenetic/syntax.py: the classes of header values, predicates and policies.
use frenetic.Base.{ℕ, String, List, [], ◌∷◌, Option}
use frenetic.Base.Int.{ℤ}
use frenetic.Base.Text.{Text}

-- The values of a location: Physical, Pipe and Query.
pub data Place : Type 0 where
  physical : ℕ → Place
  pipe : Text → Place
  query : Text → Place

-- HeaderAndValue and its subclasses. The optional number of an IP address is the attribute `mask`,
-- which the object has only if a mask was given.
pub data HeaderAndValue : Type 0 where
  switch : ℕ → HeaderAndValue
  location : Place → HeaderAndValue
  eth_src : Text → HeaderAndValue
  eth_dst : Text → HeaderAndValue
  vlan : ℕ → HeaderAndValue
  vlan_pcp : ℕ → HeaderAndValue
  eth_type : ℕ → HeaderAndValue
  ip_proto : ℕ → HeaderAndValue
  ip4_src : Text → Option ℤ → HeaderAndValue
  ip4_dst : Text → Option ℤ → HeaderAndValue
  tcp_src_port : ℕ → HeaderAndValue
  tcp_dst_port : ℕ → HeaderAndValue

-- The attribute `header`.
abbrev pub header : HeaderAndValue → String
header (switch v) = "switch"
header (location v) = "location"
header (eth_src v) = "ethsrc"
header (eth_dst v) = "ethdst"
header (vlan v) = "vlan"
header (vlan_pcp v) = "vlanpcp"
header (eth_type v) = "ethtype"
header (ip_proto v) = "ipproto"
header (ip4_src v m) = "ip4src"
header (ip4_dst v m) = "ip4dst"
header (tcp_src_port v) = "tcpsrcport"
header (tcp_dst_port v) = "tcpdstport"

-- Pred and its subclasses. `multi_pred` stands for each subclass of MultiPred, whose objects hold
-- the predicate `hv` that their constructor expands to.
mutual
  pub data Pred : Type 0 where
    and : Preds → Pred
    or : Preds → Pred
    not : Pred → Pred
    id : Pred
    drop : Pred
    test : HeaderAndValue → Pred
    multi_pred : Pred → Pred

  pub data Preds : Type 0 where
    nil : Preds
    cons : Pred → Preds → Preds

-- Policy and its subclasses. `single_policy` stands for each subclass of SinglePolicy, which holds
-- the policy `hv`; an IfThenElse holds the policy that it expands to, a SetPort its ports.
mutual
  pub data Policy : Type 0 where
    filter : Pred → Policy
    mod' : HeaderAndValue → Policy
    union : Policies → Policy
    seq : Policies → Policy
    if_then_else : Policy → Policy
    set_port : List ℕ → Policy
    single_policy : Policy → Policy

  pub data Policies : Type 0 where
    nil : Policies
    cons : Policy → Policies → Policies

-- `list(children)`
abbrev pub preds : List Pred → Preds
preds [] = Preds.nil
preds (p ∷ ps) = Preds.cons p (preds ps)

abbrev pub policies : List Policy → Policies
policies [] = Policies.nil
policies (p ∷ ps) = Policies.cons p (policies ps)

-- The attribute `children`, as a list.
abbrev pub policy_list : Policies → List Policy
policy_list Policies.nil = []
policy_list (Policies.cons p ps) = p ∷ policy_list ps
