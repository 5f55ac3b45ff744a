-- ===== src/Discovery/Routing/Increase.antt =====
-- lang/python/frenetic/examples/discovery/routing.py: which weights increase_weights changes, and when
-- version 2 of Routing does what version 1 does.
use mathlib.Core.Path.{subst}
use frenetic.Base.{
  ℕ, Bool, true, false, ◌&&◌, ◌||◌, ◌≡◌, refl, ◌∙◌, List, [], ◌∷◌, Option, none, some, ok, any,
  arith, is_some, if◌then◌else◌, Bool-cases, inl, inr,
}
use frenetic.Discovery.Graph.{Node, node_eq, node_eq_refl, node_eq→eq, DiGraph}
use frenetic.Discovery.Weights.Defs.{Floats}
use frenetic.Discovery.Routing.Weighted.{Weights, set_weight, raised, increase_weights}

-- The path goes from the one node to the other.
abbrev pub is_hop : Node → Node → List Node → Bool
is_hop u v [] = false
is_hop u v (a ∷ []) = false
is_hop u v (a ∷ b ∷ path) = (node_eq a u && node_eq b v) || is_hop u v (b ∷ path)

-- No node twice.
abbrev pub AreApart : List Node → Type 0
AreApart [] = Unit
AreApart (a ∷ path) = (any (λ b. node_eq b a) path ≡ false) × AreApart path

-- Each link of the path is there.
abbrev pub IsWalk : {G : Type 0} → DiGraph G → G → List Node → Type 0
IsWalk d g [] = Unit
IsWalk d g (a ∷ []) = Unit
IsWalk d g (a ∷ b ∷ path) = (is_some (d.edge a b g) ≡ true) × IsWalk d g (b ∷ path)

-- A path does not go on from a node that it does not have.
is_hop-apart :
    (u v : Node) (path : List Node) → any (λ b. node_eq b u) path ≡ false → is_hop u v path ≡ false
is_hop-apart u v [] h = refl
is_hop-apart u v (a ∷ []) h = refl
is_hop-apart u v (a ∷ b ∷ path) h =
    let i = is_hop-apart u v (b ∷ path) (ground arith) in ground arith

pub is_some→some : {A : Type 0} (o : Option A) → is_some o ≡ true → (a : A) × (o ≡ some a)
is_some→some none h = cc
is_some→some (some a) h = (a, refl)

both→eq : (a b u v : Node) → (node_eq a u && node_eq b v) ≡ true → (a ≡ u) × (b ≡ v)
both→eq a b u v e = (node_eq→eq a u (ground arith), node_eq→eq b v (ground arith))

module _ {G F : Type 0} (d : DiGraph G) (fl : Floats F) (weight : Node → Node → G → Option F) where
  -- What a link of the path makes of a weight, with what the rest of the path makes of it.
  abbrev one_more : ℕ → G → Node → Node → Weights F → Weights F
  one_more num_hosts g src next weights =
      set_weight src next (raised d fl weight num_hosts g src next (weights src next)) weights

  abbrev IsStep : ℕ → G → Node → Node → List Node → Weights F → Node → Node → Type 0
  IsStep num_hosts g src next path weights u v =
      (if is_hop u v (next ∷ path)
        then raised d fl weight num_hosts g u v (one_more num_hosts g src next weights u v)
        else one_more num_hosts g src next weights u v)
      ≡ (if is_hop u v (src ∷ next ∷ path)
          then raised d fl weight num_hosts g u v (weights u v)
          else weights u v)

  step :
      (num_hosts : ℕ) (g : G) (src next : Node) (path : List Node) (weights : Weights F)
      → any (λ b. node_eq b src) (next ∷ path) ≡ false
      → (u v : Node) → IsStep num_hosts g src next path weights u v
  unfolding set_weight
  step num_hosts g src next path weights h u v =
      elim (Bool-cases (node_eq src u && node_eq next v)) [
        | inl e ↦
            let (p, q) = both→eq src next u v e in
            subst (λ x. IsStep num_hosts g src next path weights x v) p
              (subst (λ y. IsStep num_hosts g src next path weights src y) q here)
        | inr e ↦ rw e refl
      ]
    where
      here : IsStep num_hosts g src next path weights src next
      here =
          rw (is_hop-apart src next (next ∷ path) h)
            (rw (node_eq_refl src) (rw (node_eq_refl next) refl))

  -- On a path of links that passes no node twice, increase_weights returns, and it raises the weight of each
  -- link of the path once, by the link's average over the number of hosts, if it has one; the other weights
  -- stay as they are.
  pub increase_weights-at :
      (num_hosts : ℕ) (g : G) (src : Node) (path : List Node) (weights : Weights F)
      → IsWalk d g (src ∷ path)
      → AreApart (src ∷ path)
      → (after : Weights F) × (increase_weights d fl weight num_hosts g src path weights ≡ ok after)
        × ((u v : Node)
            → after u v ≡ (
                if is_hop u v (src ∷ path)
                then raised d fl weight num_hosts g u v (weights u v)
                else weights u v))
  unfolding increase_weights
  increase_weights-at num_hosts g src [] weights w a = (weights, refl, λ u v. refl)
  increase_weights-at num_hosts g src (next ∷ path) weights w a =
      let weights' = one_more num_hosts g src next weights in
      let (after, e, f) = increase_weights-at num_hosts g next path weights' w.1 a.1 in
      let (l, there) = is_some→some (d.edge src next g) w.0 in
      (
        after,
        rw (there, increase_weights) e,
        λ u v. f u v ∙ step num_hosts g src next path weights a.0 u v,
      )
