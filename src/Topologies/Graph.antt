-- ===== src/Topologies/Graph.antt =====
-- topology/scripts: what fattree.py and tree.py add to a graph, in the order of the calls of the library
-- networkx. The texts that the library netaddr makes of a number are arguments.
use frenetic.Base.{ℕ, ◌+◌, List, [], ◌∷◌}
use frenetic.Base.Text.{Text}
use frenetic.Base.Decimal.{show}

pub record Address : Type 0 where
  pub mac : Text
  pub ip : Text

pub data Attributes : Type 0 where
  host : Address → Attributes
  switch : ℕ → Attributes

abbrev pub Node : Type 0
Node = Text × Attributes

pub data Cost : Type 0 where
  number : ℕ → Cost
  text : Text → Cost

-- `add_edge(src, dst, {'src_port', 'dst_port', 'capacity', 'cost'})`
pub record Edge : Type 0 where
  pub src : Text
  pub src_port : ℕ
  pub dst : Text
  pub dst_port : ℕ
  pub capacity : Text
  pub cost : Cost

pub record Graph : Type 0 where
  pub nodes : List Node
  pub edges : List Edge

-- A link: an edge, and the edge back.
abbrev pub link : Text → ℕ → Text → ℕ → Text → Cost → List Edge
link a p b q capacity cost =
    record { src = a; src_port = p; dst = b; dst_port = q; capacity = capacity; cost = cost }
    ∷ record { src = b; src_port = q; dst = a; dst_port = p; capacity = capacity; cost = cost }
    ∷ []

module _ (eui ip_address : ℕ → Text) where
  unfoldable pub mk_mac : ℕ → Text
  mk_mac i = eui i

  -- Addresses start at 111.0.0.0.
  unfoldable pub mk_ip : ℕ → Text
  mk_ip i = ip_address (1862270976 + i)

  -- `('h' + str(i), {'type', 'mac', 'ip'})`
  unfoldable pub host_node : ℕ → Node
  unfolding mk_mac mk_ip show
  host_node i = (b'h' ∷ show i, host (record { mac = mk_mac i; ip = mk_ip i }))

-- `('s' + str(i), {'type', 'id'})`
unfoldable pub switch_node : ℕ → Node
unfolding show
switch_node i = (b's' ∷ show i, switch i)
