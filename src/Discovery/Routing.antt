-- ===== src/Discovery/Routing.antt =====
-- lang/python/frenetic/examples/discovery/routing.py: Routing in its version 1, where all edges weigh the
-- same. The library's has_path and shortest_path are one parameter, which is none where no path exists.
pub mod Weighted
pub mod Increase
pub mod Versions
use frenetic.Base.{
  ℕ, List, [], ◌∷◌, ◌++◌, Option, none, some, Result, ok, err, ◌>>=◌, key_error, index_error,
  traverse, if◌then◌else◌,
}
use mathlib.Core.List.{flatten}
use frenetic.Base.Int.{pos}
use frenetic.Base.Text.{Text, text_eq}
use frenetic.Value
use frenetic.Value.{Atom, atom}
use frenetic.Syntax.Ast.{Policy, policies}
use frenetic.Syntax.Build.{◌&◌, ◌>>>◌}
use frenetic.Syntax.Sugar.Tests.{switch_eq, eth_src_eq, eth_dst_eq, eth_type_eq}
use frenetic.Syntax.Sugar.Sets.{set_port}
use frenetic.Discovery.Graph.{Node, switch, host, nobody, DiGraph}
use frenetic.Discovery.State.{State, hosts}

abbrev pub num : ℕ → Atom
num n = Value.int (pos n)

-- A node as an argument.
abbrev pub node_atom : Node → Atom
node_atom (switch n) = num n
node_atom (host mac) = Value.str mac
node_atom nobody = Value.other

abbrev pub label_of : Option (Option ℕ) → Result ℕ
label_of (some (some l)) = ok l
label_of _ = err key_error

module _ {G : Type 0} (d : DiGraph G) where
  -- `Filter(SwitchEq(curr_switch)) >> SetPort(out_port)`
  unfoldable pub hop : Node → ℕ → Result Policy
  unfolding switch_eq set_port
  hop curr_switch out_port = do
    here ← switch_eq (atom (node_atom curr_switch) ∷ [])
    to ← set_port (atom (num out_port) ∷ [])
    ok (Policy.filter here >>> to)

  -- The path is given in the order of travel; the source keeps it reversed and takes from its end.
  unfoldable pub build_path : G → List Node → Node → List Policy → Result Policy
  unfolding hop
  build_path g [] curr_switch acc = ok (Policy.union (policies acc))
  build_path g (next_switch ∷ switch_path) curr_switch acc = do
    out_port ← label_of (d.edge curr_switch next_switch g)
    pol ← hop curr_switch out_port
    build_path g switch_path next_switch (acc ++ pol ∷ [])

  -- The path without its first node, the host: its first switch is where the way begins.
  abbrev along : G → List Node → Result Policy
  along g (src ∷ first ∷ rest) = build_path g rest first []
  along g _ = err index_error

  unfoldable pub path_policy : G → Text → Text → List Node → Result Policy
  unfolding eth_src_eq eth_dst_eq build_path
  path_policy g src_host dst_host path = do
    src ← eth_src_eq (atom (Value.str src_host) ∷ [])
    dst ← eth_dst_eq (atom (Value.str dst_host) ∷ [])
    way ← along g path
    ok (Policy.filter (src & dst) >>> way)

  module _ (shortest_path : G → Node → Node → Option (List Node)) where
    abbrev pub path_of : G → Text → Text → Option (List Node) → Result (List Policy)
    path_of g src_host dst_host none = ok []
    path_of g src_host dst_host (some path) =
        path_policy g src_host dst_host path >>= λ p. ok (p ∷ [])

    unfoldable pub pair_policy : G → Text → Text → Result (List Policy)
    unfolding path_policy text_eq
    pair_policy g src_host dst_host =
        if text_eq src_host dst_host
        then ok []
        else path_of g src_host dst_host (shortest_path g (host src_host) (host dst_host))

    -- Routing.policy
    unfoldable pub routing_policy : State G → Result Policy
    unfolding pair_policy hosts eth_type_eq
    routing_policy s = do
      paths ←
          traverse
            (λ src.
              traverse (λ dst. pair_policy s.network src dst) (hosts d s) >>= λ ps. ok (flatten ps))
            (hosts d s)
      ip ← eth_type_eq (atom (num 0x800) ∷ [])
      ok (Policy.filter ip >>> Policy.union (policies (flatten paths)))
