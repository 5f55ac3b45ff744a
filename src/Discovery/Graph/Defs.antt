-- ===== src/Discovery/Graph/Defs.antt =====
-- The library networkx, as lang/python/frenetic/examples/discovery uses it: an interface of operations on
-- directed graphs, and the documented behaviour that the theorems rely on.
use frenetic.Base.{
  ℕ, Bool, true, false, ◌&&◌, ◌||◌, ◌≡◌, refl, List, Option, none, some, any, ◌==◌, arith,
  if◌then◌else◌,
}
use frenetic.Base.Text.{Text, text_eq, text_eq_refl, text_eq→eq}

-- A node is a switch's number, a host's address, or None.
pub data Node : Type 0 where
  switch : ℕ → Node
  host : Text → Node
  nobody : Node

unfoldable pub node_eq : Node → Node → Bool
node_eq (switch a) (switch b) = a == b
node_eq (host a) (host b) = text_eq a b
node_eq nobody nobody = true
node_eq _ _ = false

pub node_eq_refl : (n : Node) → node_eq n n ≡ true
unfolding node_eq
node_eq_refl (switch a) = ground arith
node_eq_refl (host a) = text_eq_refl a
node_eq_refl nobody = refl

pub node_eq→eq : (a b : Node) → node_eq a b ≡ true → a ≡ b
unfolding node_eq
node_eq→eq (switch a) (switch b) h = ground arith
node_eq→eq (host a) (host b) h = rw (text_eq→eq a b h) refl
node_eq→eq nobody nobody h = refl
node_eq→eq (switch a) (host b) h = cc
node_eq→eq (switch a) nobody h = cc
node_eq→eq (host a) (switch b) h = cc
node_eq→eq (host a) nobody h = cc
node_eq→eq nobody (switch b) h = cc
node_eq→eq nobody (host b) h = cc

-- The attribute `switch_ref`: a switch's number and its ports.
abbrev pub SwitchRef : Type 0
SwitchRef = ℕ × List ℕ

-- An edge has the attribute `label`, or has it not.
pub record DiGraph (G : Type 0) : Type 0 where
  pub empty : G
  pub nodes : G → List Node
  pub has_node : Node → G → Bool
  pub switch_ref : Node → G → Option SwitchRef
  pub add_node : Node → Option SwitchRef → G → G
  pub remove_node : Node → G → G
  pub edge : Node → Node → G → Option (Option ℕ)
  pub add_edge : Node → Node → Option ℕ → G → G
  pub remove_edge : Node → Node → G → G
  pub out_edges : Node → G → List (Node × Option ℕ)

pub record IsDiGraph {G : Type 0} (d : DiGraph G) : Type 0 where
  pub edge-empty : (i j : Node) → d.edge i j d.empty ≡ none
  pub edge-add_node :
      (n i j : Node) (r : Option SwitchRef) (g : G) → d.edge i j (d.add_node n r g) ≡ d.edge i j g
  pub edge-remove_node :
      (n i j : Node) (g : G)
      → d.edge i j (d.remove_node n g) ≡ (if node_eq n i || node_eq n j then none else d.edge i j g)
  pub edge-add_edge :
      (u v i j : Node) (l : Option ℕ) (g : G)
      → d.edge u v g ≡ none
      → d.edge i j (d.add_edge u v l g)
        ≡ (if node_eq u i && node_eq v j then some l else d.edge i j g)
  pub has_node-add_edge :
      (u v n : Node) (l : Option ℕ) (g : G)
      → d.has_node n (d.add_edge u v l g) ≡ (node_eq u n || node_eq v n || d.has_node n g)
  pub switch_ref-add_edge :
      (u v n : Node) (l : Option ℕ) (g : G) → d.switch_ref n (d.add_edge u v l g) ≡ d.switch_ref n g
  pub any-out_edges :
      (p : Node → Option ℕ → Bool) (i : Node) (g : G)
      → any (λ e. p e.0 e.1) (d.out_edges i g) ≡ true
      → (j : Node) × (l : Option ℕ) × (d.edge i j g ≡ some l) × (p j l ≡ true)
  pub out_edges-any :
      (p : Node → Option ℕ → Bool) (i j : Node) (l : Option ℕ) (g : G)
      → d.edge i j g ≡ some l
      → p j l ≡ true
      → any (λ e. p e.0 e.1) (d.out_edges i g) ≡ true
