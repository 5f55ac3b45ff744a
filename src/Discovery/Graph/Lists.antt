-- ===== src/Discovery/Graph/Lists.antt =====
-- Graphs as lists of nodes and of edges, which behave as lang/python/frenetic/examples/discovery relies on.
use frenetic.Base.{
  ℕ, Bool, true, false, not, ◌&&◌, ◌||◌, ◌≡◌, refl, ap, ◌∙◌, sym, List, [], ◌∷◌, map, Option, none,
  some, any, arith, if◌then◌else◌, Bool-cases, inl, inr,
}
use frenetic.Discovery.Graph.Defs.{
  Node, node_eq, node_eq_refl, node_eq→eq, SwitchRef, DiGraph, IsDiGraph,
}

abbrev pub Nodes : Type 0
Nodes = List (Node × Option SwitchRef)

abbrev pub Edges : Type 0
Edges = List (Node × Node × Option ℕ)

pub record Graph : Type 0 where
  pub nodes : Nodes
  pub edges : Edges

unfoldable pub ref_at : Node → Nodes → Option SwitchRef
ref_at n [] = none
ref_at n ((m, r) ∷ ns) = if node_eq m n then r else ref_at n ns

abbrev pub new_ref : Option SwitchRef → Option SwitchRef → Option SwitchRef
new_ref none old = old
new_ref (some r) old = some r

unfoldable pub put_node : Node → Option SwitchRef → Nodes → Nodes
put_node n r [] = (n, r) ∷ []
put_node n r ((m, q) ∷ ns) = if node_eq m n then (m, new_ref r q) ∷ ns else (m, q) ∷ put_node n r ns

unfoldable pub has : Node → Nodes → Bool
has n ns = any (λ m. node_eq m.0 n) ns

unfoldable pub drop_node : Node → Nodes → Nodes
drop_node n [] = []
drop_node n ((m, q) ∷ ns) = if node_eq m n then drop_node n ns else (m, q) ∷ drop_node n ns

unfoldable pub edge_at : Node → Node → Edges → Option (Option ℕ)
edge_at i j [] = none
edge_at i j ((u, v, l) ∷ es) = if node_eq u i && node_eq v j then some l else edge_at i j es

unfoldable pub drop_edges : (Node → Node → Bool) → Edges → Edges
drop_edges p [] = []
drop_edges p ((u, v, l) ∷ es) = if p u v then drop_edges p es else (u, v, l) ∷ drop_edges p es

unfoldable pub without : Node → List (Node × Option ℕ) → List (Node × Option ℕ)
without v [] = []
without v ((j, l) ∷ xs) = if node_eq v j then without v xs else (j, l) ∷ without v xs

-- An edge that is repeated counts once.
unfoldable pub out : Node → Edges → List (Node × Option ℕ)
unfolding without
out i [] = []
out i ((u, v, l) ∷ es) = if node_eq u i then (v, l) ∷ without v (out i es) else out i es

-- The operations, `abbrev` so that tests compute with them.
abbrev pub lists : DiGraph Graph
lists = record {
  empty = record { nodes = []; edges = [] };
  nodes = λ g. map (λ m. m.0) g.nodes;
  has_node = λ n g. has n g.nodes;
  switch_ref = λ n g. ref_at n g.nodes;
  add_node = λ n r g. record g { nodes = put_node n r g.nodes };
  remove_node = λ n g. record {
    nodes = drop_node n g.nodes;
    edges = drop_edges (λ u v. node_eq n u || node_eq n v) g.edges;
  };
  edge = λ i j g. edge_at i j g.edges;
  add_edge = λ u v l g. record {
    nodes = put_node v none (put_node u none g.nodes);
    edges = (u, v, l) ∷ g.edges;
  };
  remove_edge =
      λ u v g. record g { edges = drop_edges (λ a b. node_eq u a && node_eq v b) g.edges };
  out_edges = λ i g. out i g.edges;
}

edge_at-drop_edges :
    (n i j : Node) (es : Edges)
    → edge_at i j (drop_edges (λ u v. node_eq n u || node_eq n v) es)
      ≡ (if node_eq n i || node_eq n j then none else edge_at i j es)
unfolding edge_at drop_edges
edge_at-drop_edges n i j [] = ground arith
edge_at-drop_edges n i j ((u, v, l) ∷ es) =
    ground (arith, edge_at-drop_edges n i j es, node_eq→eq u i, node_eq→eq v j)

has-put_node : (u n : Node) (ns : Nodes) → has n (put_node u none ns) ≡ (node_eq u n || has n ns)
unfolding has put_node
has-put_node u n [] = refl
has-put_node u n ((m, q) ∷ ns) =
    ground (arith, has-put_node u n ns, node_eq→eq m u, node_eq→eq u n, node_eq_refl n)

ref_at-put_node : (u n : Node) (ns : Nodes) → ref_at n (put_node u none ns) ≡ ref_at n ns
unfolding ref_at put_node
ref_at-put_node u n [] = ground arith
ref_at-put_node u n ((m, q) ∷ ns) = ground (arith, ref_at-put_node u n ns)

any-without :
    (p : Node → Option ℕ → Bool) (v : Node) (xs : List (Node × Option ℕ))
    → any (λ e. p e.0 e.1) (without v xs) ≡ any (λ e. p e.0 e.1 && not (node_eq v e.0)) xs
unfolding without
any-without p v [] = refl
any-without p v ((j, l) ∷ xs) = ground (arith, any-without p v xs)

any-out :
    (p : Node → Option ℕ → Bool) (i : Node) (es : Edges)
    → any (λ e. p e.0 e.1) (out i es) ≡ true
    → (j : Node) × (l : Option ℕ) × (edge_at i j es ≡ some l) × (p j l ≡ true)
unfolding out edge_at
any-out p i [] h = cc
any-out p i ((u, v, l) ∷ es) h = elim (Bool-cases (node_eq u i)) [
  | inr e ↦ let (j, k, f, g) = any-out p i es (rw e at h) in (j, k, rw e f, g)
  | inl e ↦ elim (Bool-cases (p v l)) [
    | inl f ↦ (v, l, rw e (rw (node_eq_refl v) refl), f)
    | inr f ↦
        let rest = any-out (λ j k. p j k && not (node_eq v j)) i es (later e f h) in
        (rest.0, rest.1, ground (arith, rest.2, rest.3), ground (arith, rest.3))
  ]
]
  where
    later :
        node_eq u i ≡ true
        → p v l ≡ false
        → any (λ e. p e.0 e.1) (out i ((u, v, l) ∷ es)) ≡ true
        → any (λ e. p e.0 e.1 && not (node_eq v e.0)) (out i es) ≡ true
    later e f h = sym (any-without p v (out i es)) ∙ ground arith

out-any :
    (p : Node → Option ℕ → Bool) (i j : Node) (l : Option ℕ) (es : Edges)
    → edge_at i j es ≡ some l
    → p j l ≡ true
    → any (λ e. p e.0 e.1) (out i es) ≡ true
unfolding out edge_at
out-any p i j l [] h k = cc
out-any p i j l ((u, v, m) ∷ es) h k = elim (Bool-cases (node_eq u i)) [
  | inr e ↦ rw e (out-any p i j l es (rw e at h) k)
  | inl e ↦ elim (Bool-cases (node_eq v j)) [
    | inl f ↦
        let same : some m ≡ some l = rw f at (rw e at h) in
        let here : p v m ≡ true = rw (node_eq→eq v j f) (ground (arith, same)) in
        rw e (rw here refl)
    | inr f ↦
        let rest =
          out-any (λ a b. p a b && not (node_eq v a)) i j l es (rw f at (rw e at h))
            (rw k (rw f refl)) in
        rw e (rw (any-without p v (out i es)) (rw rest (ground arith)))
  ]
]

-- The lists behave as the library documents of its graphs.
pub lists-IsDiGraph : IsDiGraph lists
unfolding edge_at
lists-IsDiGraph = record {
  edge-empty = λ i j. refl;
  edge-add_node = λ n i j r g. refl;
  edge-remove_node = λ n i j g. edge_at-drop_edges n i j g.edges;
  edge-add_edge = λ u v i j l g h. refl;
  has_node-add_edge = λ u v n l g.
      has-put_node v n (put_node u none g.nodes)
      ∙ ap (◌||◌ (node_eq v n)) (has-put_node u n g.nodes)
      ∙ ground arith;
  switch_ref-add_edge =
      λ u v n l g. ref_at-put_node v n (put_node u none g.nodes) ∙ ref_at-put_node u n g.nodes;
  any-out_edges = λ p i g h. any-out p i g.edges h;
  out_edges-any = λ p i j l g h k. out-any p i j l g.edges h k;
}
