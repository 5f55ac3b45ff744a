-- ===== src/Discovery/Routing/Weighted.antt =====
-- lang/python/frenetic/examples/discovery/routing.py: Routing in both versions. The copy of the network in
-- which the weights are increased differs from the network in its weights alone, so it is a function of two
-- nodes; the attribute `weight` of the network itself is a parameter, and so are has_path and
-- shortest_path, which are none where no path exists.
use frenetic.Base.{
  ℕ, ◌&&◌, List, [], ◌∷◌, ◌++◌, Option, none, some, Result, ok, err, ◌>>=◌, key_error, index_error,
  length, ◌==◌, if◌then◌else◌,
}
use frenetic.Base.Text.{Text, text_eq}
use frenetic.Value.{atom}
use frenetic.Syntax.Ast.{Policy, policies}
use frenetic.Syntax.Build.{◌>>>◌}
use frenetic.Syntax.Sugar.Tests.{eth_type_eq}
use frenetic.Discovery.Graph.{Node, host, node_eq, DiGraph}
use frenetic.Discovery.State.{State, hosts}
use frenetic.Discovery.Routing.{num, path_policy}
use frenetic.Discovery.Weights.Defs.{Floats}

abbrev pub Weights : Type 0 → Type 0
Weights F = Node → Node → F

-- `network.add_edge(u, v, weight = w)`
unfoldable pub set_weight : {F : Type 0} → Node → Node → F → Weights F → Weights F
unfolding node_eq
set_weight u v w weights a b = if node_eq u a && node_eq v b then w else weights a b

module _ {G F : Type 0} (d : DiGraph G) (fl : Floats F) (weight : Node → Node → G → Option F) where
  -- The weight of an edge with a calculated average, for one more path.
  unfoldable pub raised : ℕ → G → Node → Node → F → F
  raised num_hosts g u v curr_weight = elim (weight u v g) [
    | none ↦ curr_weight
    | some moving_average ↦ fl.plus curr_weight (fl.over_size moving_average num_hosts)
  ]

  -- The path is given in the order of travel; an edge that is not there is a KeyError.
  unfoldable pub increase_weights : ℕ → G → Node → List Node → Weights F → Result (Weights F)
  unfolding raised set_weight
  increase_weights num_hosts g curr_node [] weights = ok weights
  increase_weights num_hosts g curr_node (next_node ∷ path) weights =
      let weights' =
        set_weight curr_node next_node
          (raised num_hosts g curr_node next_node (weights curr_node next_node)) weights in
      let rest = increase_weights num_hosts g next_node path weights' in
      elim (d.edge curr_node next_node g) [ none ↦ err key_error | some l ↦ rest ]

  abbrev pub increase_path : ℕ → G → List Node → Weights F → Result (Weights F)
  increase_path num_hosts g [] weights = err index_error
  increase_path num_hosts g (src ∷ path) weights = increase_weights num_hosts g src path weights

  module _ (one : F) (version : ℕ)
      (shortest_path : G → Weights F → Node → Node → Option (List Node)) where
    abbrev pub after_path :
        State G → Text → Text → Weights F → Option (List Node) → Result (Weights F × List Policy)
    after_path s src dst weights none = ok (weights, [])
    after_path s src dst weights (some path) = do
      weights' ←
          if version == 2
          then increase_path (length (hosts d s)) s.network path weights
          else ok weights
      p ← path_policy d s.network src dst path
      ok (weights', p ∷ [])

    -- One round of the inner loop
    unfoldable pub weighted_pair :
        State G → Text → Text → Weights F → Result (Weights F × List Policy)
    unfolding increase_weights path_policy hosts text_eq
    weighted_pair s src_host dst_host weights =
        if text_eq src_host dst_host
        then ok (weights, [])
        else after_path s src_host dst_host weights
            (shortest_path s.network weights (host src_host) (host dst_host))

    unfoldable pub weighted_row :
        State G → Text → List Text → Weights F → Result (Weights F × List Policy)
    unfolding weighted_pair
    weighted_row s src [] weights = ok (weights, [])
    weighted_row s src (dst ∷ dsts) weights = do
      (weights', ps) ← weighted_pair s src dst weights
      (weights'', qs) ← weighted_row s src dsts weights'
      ok (weights'', ps ++ qs)

    unfoldable pub weighted_rows :
        State G → List Text → List Text → Weights F → Result (Weights F × List Policy)
    unfolding weighted_row
    weighted_rows s dsts [] weights = ok (weights, [])
    weighted_rows s dsts (src ∷ srcs) weights = do
      (weights', ps) ← weighted_row s src dsts weights
      (weights'', qs) ← weighted_rows s dsts srcs weights'
      ok (weights'', ps ++ qs)

    -- Routing.policy
    unfoldable pub weighted_policy : State G → Result Policy
    unfolding weighted_rows hosts eth_type_eq
    weighted_policy s = do
      (weights, paths) ← weighted_rows s (hosts d s) (hosts d s) (λ u v. one)
      ip ← eth_type_eq (atom (num 0x800) ∷ [])
      ok (Policy.filter ip >>> Policy.union (policies paths))
