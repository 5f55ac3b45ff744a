-- ===== src/Discovery/Weights/Round.antt =====
-- lang/python/frenetic/examples/discovery/topology.py: update_weights, as a machine that asks the controller
-- for the counters of one link after another. The edges that are left to ask for are kept with the
-- end of the source's list first. What the library networkx does with the attributes `counts` and
-- `weight` of an edge is an interface.
use mathlib.Core.List.{reverse}
use frenetic.Base.{
  ℕ, Bool, false, ◌&&◌, ◌≡◌, List, [], ◌∷◌, ◌++◌, Option, none, some, Result, PyError, ok, err,
  ◌>>=◌, assertion_error, key_error, if◌then◌else◌,
}
use frenetic.Syntax.Ast.{Policy}
use frenetic.Discovery.Graph.{Node, node_eq, DiGraph}
use frenetic.Discovery.State.{State, Observer, notify}
use frenetic.Discovery.Topology.{Message, messages_of}
use frenetic.Discovery.Weights.Defs.{Floats, Count, update_callback}

abbrev pub Edge : Type 0
Edge = Node × Node

abbrev pub edge_eq : Edge → Edge → Bool
edge_eq (u, v) (i, j) = node_eq u i && node_eq v j

-- The edges with a label, the attribute `counts` of an edge, add_edge with the three attributes, and
-- an append to the list that is an attribute.
pub record Counted (G F : Type 0) : Type 0 where
  pub labelled : G → List Edge
  pub counts : Node → Node → G → Option (List (Count F))
  pub add_counts : Node → Node → ℕ → F → List (Count F) → G → G
  pub change_counts : Node → Node → List (Count F) → G → G

pub record IsCounted {G F : Type 0} (d : DiGraph G) (c : Counted G F) : Type 0 where
  pub edge-add_counts :
      (u v i j : Node) (l : ℕ) (w : F) (cs : List (Count F)) (g : G)
      → d.edge u v g ≡ some (some l)
      → d.edge i j (c.add_counts u v l w cs g) ≡ d.edge i j g
  pub counts-add_counts :
      (u v i j : Node) (l : ℕ) (w : F) (cs : List (Count F)) (g : G)
      → d.edge u v g ≡ some (some l)
      → c.counts i j (c.add_counts u v l w cs g)
        ≡ (if edge_eq (u, v) (i, j) then some cs else c.counts i j g)

-- The counters of a port, and the time at which they arrive.
abbrev pub Stats : Type 0 → Type 0
Stats F = ℕ × ℕ × F

-- No request is under way, or one for the port of an edge, with the edges that are left.
pub data Round : Type 0 where
  idle : Round
  waiting : Edge → ℕ → List Edge → Round

-- Where the machine stands after some calls: the request, the state, and the messages or the exception.
pub record Turn (G : Type 0) : Type 0 where
  pub round : Round
  pub state : State G
  pub result : Result (List Message)

-- An exception ends the round.
abbrev pub raising : {G : Type 0} → State G → PyError → Turn G
raising s e = record { round = idle; state = s; result = err e }

module _ {G F : Type 0} (d : DiGraph G) (c : Counted G F) (fl : Floats F)
    (run_update : Observer → State G → Result Policy) where
  -- `self.state.network[switch_id][dst_id]['label']`
  abbrev pub label_of : Option (Option ℕ) → Result ℕ
  label_of (some (some l)) = ok l
  label_of _ = err key_error

  abbrev pub asked : Edge → List Edge → State G → Result ℕ → Turn G
  asked e edges s (ok port) = record { round = waiting e port edges; state = s; result = ok [] }
  asked e edges s (err x) = raising s x

  unfoldable pub update_next : List Edge → State G → Turn G
  update_next [] s = raising s assertion_error
  update_next ((u, v) ∷ edges) s = asked (u, v) edges s (label_of (d.edge u v s.network))

  unfoldable pub update_weights_helper : List Edge → State G → Turn G
  unfolding update_next notify
  update_weights_helper [] s =
      let (s', result) = messages_of d run_update (notify d run_update s) in
      record { round = idle; state = s'; result = result }
  update_weights_helper (e ∷ edges) s = update_next (e ∷ edges) s

  unfoldable pub update_weights : State G → Turn G
  unfolding update_weights_helper
  update_weights s = update_weights_helper (reverse (c.labelled s.network)) s

  -- The list of counts that an edge has is changed in place, before the average is made.
  abbrev changed : Node → Node → Option (List (Count F)) → List (Count F) → State G → State G
  changed u v none cs s = s
  changed u v (some old) cs s = record s { network = c.change_counts u v cs s.network }

  abbrev pub store : Node → Node → List (Count F) → F → List Edge → State G → Result ℕ → Turn G
  store u v cs w edges s (err e) = raising (changed u v (c.counts u v s.network) cs s) e
  store u v cs w edges s (ok l) =
      update_weights_helper edges
        (record s { network = c.add_counts u v l w cs s.network; clean = false })

  abbrev pub with_weight : Node → Node → List (Count F) → List Edge → State G → Result F → Turn G
  with_weight u v cs edges s (err e) = raising (changed u v (c.counts u v s.network) cs s) e
  with_weight u v cs edges s (ok w) = store u v cs w edges s (label_of (d.edge u v s.network))

  -- update_callback and what it calls; an edge that is gone is a KeyError.
  unfoldable pub answer : Round → Stats F → State G → Turn G
  unfolding update_callback update_weights_helper
  answer idle stats s = record { round = idle; state = s; result = ok [] }
  answer (waiting (u, v) port edges) (rx, tx, now) s =
      let next = update_callback fl rx tx now (c.counts u v s.network) in
      elim (d.edge u v s.network) [
        | none ↦ raising s key_error
        | some l ↦ with_weight u v next.0 edges s next.1
      ]

  -- What a list of answers comes to; after an exception there are no more of them.
  unfoldable pub answers : Turn G → List (Stats F) → Turn G
  unfolding answer
  answers t [] = t
  answers t (stats ∷ rest) =
      let next = answer t.round stats t.state in
      let so_far = t.result >>= λ sent. next.result >>= λ more. ok (sent ++ more) in
      let later =
        answers (record { round = next.round; state = next.state; result = so_far }) rest in
      elim t.result [ err e ↦ t | ok sent ↦ later ]
