-- ===== src/Tests/Counters.antt =====
-- The theorems on the weights of links, at concrete inputs.
use mathlib.Core.List.{reverse}
use frenetic.Base.{
  ℕ, Bool, true, false, ◌&&◌, ◌≡◌, refl, inr, List, [], ◌∷◌, map, Option, none, some, Result, ok,
  err, assertion_error, if◌then◌else◌,
}
use frenetic.Base.Text.{codes, text_eq}
use frenetic.Syntax.Ast.{Policy}
use frenetic.Discovery.Graph.{Node, node_eq, switch, host, DiGraph}
use frenetic.Discovery.Graph.Lists.{Graph, Edges, edge_at, lists}
use frenetic.Discovery.State.{State, Observer, internal_discovery}
use frenetic.Discovery.Routing.{routing_policy}
use frenetic.Discovery.Routing.Weighted.{Weights, increase_weights, raised, weighted_policy}
use frenetic.Discovery.Routing.Increase.{is_hop, increase_weights-at}
use frenetic.Discovery.Routing.Versions.{IsPath, IsCalm, unweighted, weighted_policy-routing_policy}
use frenetic.Discovery.Weights.Defs.{
  Count, update_callback, moving_average, sum_rates, remove_older, rate,
}
use frenetic.Discovery.Weights.Round.{
  Edge, edge_eq, Counted, IsCounted, Stats, update_weights, answers,
}
use frenetic.Discovery.Weights.Counting.{AreCounted}
use frenetic.Discovery.Weights.Refresh.{finished, clean_after, answers-update_weights}
use mathlib.Core.Path.{subst}
use frenetic.Tests.Links.{whole}

-- A switch between two hosts.
abbrev m : Node
m = host (codes "m")

abbrev n : Node
n = host (codes "n")

abbrev between : Graph
between = record {
  nodes = (switch 1, some (1, 2 ∷ 3 ∷ [])) ∷ (m, none) ∷ (n, none) ∷ [];
  edges =
      (m, switch 1, none)
      ∷ (switch 1, m, some 2)
      ∷ (n, switch 1, none)
      ∷ (switch 1, n, some 3)
      ∷ [];
}

-- Six bytes on each link of the switch.
abbrev six : Node → Node → Graph → Option ℕ
six (switch k) v g = some 6
six u v g = none

abbrev all_one : Weights ℕ
all_one u v = 1

increase_weights-at_example :
    (after : Weights ℕ) × (increase_weights lists whole six 2 between m (switch 1 ∷ n ∷ []) all_one
      ≡ ok after)
    × ((u v : Node)
        → after u v ≡ (
            if is_hop u v (m ∷ switch 1 ∷ n ∷ [])
            then raised lists whole six 2 between u v (all_one u v)
            else all_one u v))
unfolding edge_at node_eq text_eq
increase_weights-at_example =
    increase_weights-at lists whole six 2 between m (switch 1 ∷ n ∷ []) all_one (refl, (refl, tt))
      (refl, (refl, (refl, tt)))

abbrev state : State Graph
state = record { network = between; mode = internal_discovery; observers = []; clean = true }

abbrev no_weight : Node → Node → Graph → Option ℕ
no_weight u v g = none

abbrev m_to_n : Graph → Weights ℕ → Node → Node → Option (List Node)
m_to_n g weights (host a) (host b) =
    if text_eq a (codes "m") && text_eq b (codes "n") then some (m ∷ switch 1 ∷ n ∷ []) else none
m_to_n g weights u v = none

m_to_n-IsCalm : IsCalm lists whole no_weight 1 2 m_to_n state
unfolding edge_at node_eq text_eq
m_to_n-IsCalm = (
  λ u v. refl,
  λ src dst path h. walk (text_eq src (codes "m") && text_eq dst (codes "n")) path h,
)
  where
    some_inj : {a b : List Node} → some a ≡ some b → a ≡ b
    some_inj h = cc

    clash : {a : List Node} → none ≡ some a → ⊥
    clash h = cc

    walk :
        (b : Bool) (path : List Node)
        → (if b then some (m ∷ switch 1 ∷ n ∷ []) else none) ≡ some path
        → IsPath lists between path
    walk true path h = subst (IsPath lists between) (some_inj h) (refl, (refl, tt))
    walk false path h = absurd (clash h)

weighted_policy-routing_policy_example :
    weighted_policy lists whole no_weight 1 2 m_to_n state
    ≡ routing_policy lists (unweighted lists whole no_weight 1 2 m_to_n state) state
weighted_policy-routing_policy_example =
    weighted_policy-routing_policy lists whole no_weight 1 2 m_to_n state (inr m_to_n-IsCalm)

-- Graphs with the counts of their edges.
abbrev Counts : Type 0
Counts = Node → Node → Option (List (Count ℕ))

abbrev Tracked : Type 0
Tracked = Graph × Counts

abbrev tracked : DiGraph Tracked
tracked = record {
  empty = (lists.empty, λ u v. none);
  nodes = λ g. lists.nodes g.0;
  has_node = λ k g. lists.has_node k g.0;
  switch_ref = λ k g. lists.switch_ref k g.0;
  add_node = λ k r g. (lists.add_node k r g.0, g.1);
  remove_node = λ k g. (lists.remove_node k g.0, g.1);
  edge = λ u v g. lists.edge u v g.0;
  add_edge = λ u v l g. (lists.add_edge u v l g.0, g.1);
  remove_edge = λ u v g. (lists.remove_edge u v g.0, g.1);
  out_edges = λ u g. lists.out_edges u g.0;
}

abbrev set_counts : Node → Node → List (Count ℕ) → Counts → Counts
set_counts u v cs counts i j = if edge_eq (u, v) (i, j) then some cs else counts i j

abbrev labels : Edges → List Edge
labels [] = []
labels ((u, v, none) ∷ es) = labels es
labels ((u, v, some l) ∷ es) = (u, v) ∷ labels es

abbrev counted : Counted Tracked ℕ
counted = record {
  labelled = λ g. labels g.0.edges;
  counts = λ u v g. g.1 u v;
  add_counts = λ u v l w cs g. (g.0, set_counts u v cs g.1);
  change_counts = λ u v cs g. (g.0, set_counts u v cs g.1);
}

tracked-IsCounted : IsCounted tracked counted
tracked-IsCounted = record {
  edge-add_counts = λ u v i j l w cs g h. refl;
  counts-add_counts = λ u v i j l w cs g h. refl;
}

-- Counters that grow with the time, for which both links of the switch have been asked before.
abbrev before : Tracked
before = (between, λ u v. some (record { timestamp = 5; count = 40 } ∷ []))

abbrev reply : Edge → Stats ℕ
reply e = (60, 30, 10)

abbrev no_policy : Observer → State Tracked → Result Policy
no_policy o s = err assertion_error

abbrev discovered : State Tracked
discovered = record { network = before; mode = internal_discovery; observers = []; clean = true }

answers-update_weights_example :
    (g : Tracked) × (answers tracked counted whole no_policy
        (update_weights tracked counted whole no_policy discovered)
        (map reply (reverse (counted.labelled before)))
      ≡ finished tracked counted whole no_policy tracked-IsCounted reply (record discovered {
        network = g;
        clean =
            clean_after tracked counted whole no_policy tracked-IsCounted reply
              (counted.labelled before)
              true;
      }))
    × AreCounted tracked counted whole tracked-IsCounted reply before (counted.labelled before) g
unfolding edge_at node_eq text_eq reverse update_callback moving_average sum_rates remove_older rate
answers-update_weights_example =
    answers-update_weights tracked counted whole no_policy tracked-IsCounted reply discovered
      (refl, (refl, tt)) ((2, refl), ((3, refl), tt)) ((0, refl), ((0, refl), tt))
