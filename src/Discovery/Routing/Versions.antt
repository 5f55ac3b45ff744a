-- ===== src/Discovery/Routing/Versions.antt =====
-- lang/python/frenetic/examples/discovery/routing.py: when version 2 of Routing does what version 1 does.
use mathlib.Core.List.{flatten}
use frenetic.Base.{
  ℕ, Bool, true, false, ◌≡◌, refl, ap, ◌∙◌, ◌⊎◌, List, [], ◌∷◌, ◌++◌, Option, none, some, Result,
  ok, err, ◌>>=◌, traverse, length, ◌==◌, if◌then◌else◌, Bool-cases, inl, inr,
}
use frenetic.Base.Text.{Text, text_eq}
use frenetic.Discovery.Graph.{Node, host, node_eq, node_eq→eq, DiGraph}
use frenetic.Discovery.State.{State, hosts}
use frenetic.Discovery.Weights.Defs.{Floats}
use frenetic.Discovery.Routing.{path_policy, path_of, pair_policy, routing_policy}
use frenetic.Discovery.Routing.Weighted.{
  Weights, set_weight, raised, increase_weights, increase_path, after_path, weighted_pair,
  weighted_row, weighted_rows, weighted_policy,
}
use frenetic.Discovery.Routing.Increase.{IsWalk, is_some→some}

-- Setting a weight to what it is changes nothing.
set_same :
    {F : Type 0} (u v : Node) (weights : Weights F) → set_weight u v (weights u v) weights ≡ weights
unfolding set_weight
set_same u v weights = λ i a b. at a b i
  where
    at : (a b : Node) → set_weight u v (weights u v) weights a b ≡ weights a b
    at a b = elim (Bool-cases (node_eq u a)) [
      | inl e ↦ elim (Bool-cases (node_eq v b)) [
        | inl f ↦
            rw e
              (rw f (ap (λ x. weights x v) (node_eq→eq u a e) ∙ ap (weights a) (node_eq→eq v b f)))
        | inr f ↦ rw e (rw f refl)
      ]
      | inr e ↦ rw e refl
    ]

-- A result, beside weights.
abbrev beside : {W A : Type 0} → W → Result A → Result (W × A)
beside w (ok a) = ok (w, a)
beside w (err e) = err e

abbrev flat : {P : Type 0} → Result (List (List P)) → Result (List P)
flat r = r >>= λ pss. ok (flatten pss)

abbrev go_on :
    {W P : Type 0} → Result (W × List P) → (W → Result (W × List P)) → Result (W × List P)
go_on r k = r >>= λ a. k a.0 >>= λ b. ok (b.0, a.1 ++ b.1)

-- The results of a loop's first round and of the others, beside weights that stay the same.
together :
    {W P : Type 0} (w : W) (r : Result (List P)) (q : Result (List (List P)))
    (k : W → Result (W × List P))
    → k w ≡ beside w (flat q)
    → go_on (beside w r) k ≡ beside w (flat (r >>= λ ps. q >>= λ pss. ok (ps ∷ pss)))
unfolding flatten
together w (err e) q k h = refl
together w (ok ps) (err e) k h = rw h refl
together w (ok ps) (ok pss) k h = rw h refl

gained :
    {W : Type 0} {w : W} (b : Bool) (r : Result W)
    → (b ≡ false) ⊎ (r ≡ ok w)
    → (if b then r else ok w) ≡ ok w
gained false r h = refl
gained true r (inl h) = absurd (clash h)
  where
    clash : true ≡ false → ⊥
    clash h = cc
gained true r (inr h) = h

alone :
    {W P : Type 0} (w : W) (r : Result P)
    → (r >>= λ p. ok (w, p ∷ [])) ≡ beside w (r >>= λ p. ok (p ∷ []))
alone w (ok p) = refl
alone w (err e) = refl

last :
    {W P Q : Type 0} (w : W) (r : Result (List (List P))) (k : List P → Result Q)
    → (beside w (flat r) >>= λ a. k a.1) ≡ (r >>= λ pss. k (flatten pss))
last w (ok pss) k = refl
last w (err e) k = refl

-- A path of links that are there, with a first node.
abbrev pub IsPath : {G : Type 0} → DiGraph G → G → List Node → Type 0
IsPath d g [] = ⊥
IsPath d g (a ∷ path) = IsWalk d g (a ∷ path)

module _ {G F : Type 0} (d : DiGraph G) (fl : Floats F) (weight : Node → Node → G → Option F) where
  increase_weights-same :
      (n : ℕ) (g : G) (src : Node) (path : List Node) (weights : Weights F)
      → ((u v : Node) → weight u v g ≡ none)
      → IsWalk d g (src ∷ path)
      → increase_weights d fl weight n g src path weights ≡ ok weights
  unfolding increase_weights raised
  increase_weights-same n g src [] weights h w = refl
  increase_weights-same n g src (next ∷ path) weights h w =
      let (l, there) = is_some→some (d.edge src next g) w.0 in
      rw (there, increase_weights)
        (rw (h src next, raised)
          (rw (set_same src next weights) (increase_weights-same n g next path weights h w.1)))

  module _ (one : F) (version : ℕ)
      (shortest_path : G → Weights F → Node → Node → Option (List Node)) (s : State G) where
    abbrev ones : Weights F
    ones u v = one

    -- The shortest paths of version 1.
    abbrev pub unweighted : G → Node → Node → Option (List Node)
    unweighted g src dst = shortest_path g ones src dst

    abbrev pub IsCalm : Type 0
    IsCalm =
        ((u v : Node) → weight u v s.network ≡ none)
        × ((src dst : Text) (path : List Node)
            → shortest_path s.network ones (host src) (host dst) ≡ some path
            → IsPath d s.network path)

    module _ (calm : ((version == 2) ≡ false) ⊎ IsCalm) where
      increase_path-same :
          (path : List Node)
          → (n : ℕ) → IsCalm
          → IsPath d s.network path
          → increase_path d fl weight n s.network path ones ≡ ok ones
      increase_path-same [] n c w = absurd w
      increase_path-same (src ∷ path) n c w = increase_weights-same n s.network src path ones c.0 w

      kept :
          (src dst : Text) (path : List Node)
          → shortest_path s.network ones (host src) (host dst) ≡ some path
          → ((version == 2) ≡ false)
            ⊎ (increase_path d fl weight (length (hosts d s)) s.network path ones ≡ ok ones)
      kept src dst path h = elim calm [
        | inl e ↦ inl e
        | inr c ↦ inr (increase_path-same path (length (hosts d s)) c (c.1 src dst path h))
      ]

      after_path-same :
          (src dst : Text) (o : Option (List Node))
          → shortest_path s.network ones (host src) (host dst) ≡ o
          → after_path d fl weight one version shortest_path s src dst ones o
            ≡ beside ones (path_of d unweighted s.network src dst o)
      after_path-same src dst none h = refl
      after_path-same src dst (some path) h =
          ap (λ r. r >>= λ w. path_policy d s.network src dst path >>= λ p. ok (w, p ∷ []))
            (gained (version == 2)
              (increase_path d fl weight (length (hosts d s)) s.network path ones)
              (kept src dst path h))
          ∙ alone ones (path_policy d s.network src dst path)

      pair-same :
          (src dst : Text)
          → weighted_pair d fl weight one version shortest_path s src dst ones
            ≡ beside ones (pair_policy d unweighted s.network src dst)
      unfolding weighted_pair pair_policy
      pair-same src dst = elim (Bool-cases (text_eq src dst)) [
        | inl e ↦ rw e refl
        | inr e ↦ rw e (after_path-same src dst (unweighted s.network (host src) (host dst)) refl)
      ]

      row-same :
          (src : Text) (dsts : List Text)
          → weighted_row d fl weight one version shortest_path s src dsts ones
            ≡ beside ones (flat (traverse (pair_policy d unweighted s.network src) dsts))
      unfolding weighted_row flatten
      row-same src [] = refl
      row-same src (dst ∷ dsts) = rw (pair-same src dst) (
          together ones (pair_policy d unweighted s.network src dst)
            (traverse (pair_policy d unweighted s.network src) dsts) _ (row-same src dsts))

      rows-same :
          (dsts srcs : List Text)
          → weighted_rows d fl weight one version shortest_path s dsts srcs ones
            ≡ beside ones (
                flat (
                  traverse
                    (λ src. traverse (pair_policy d unweighted s.network src) dsts >>= λ ps.
                      ok (flatten ps))
                    srcs))
      unfolding weighted_rows flatten
      rows-same dsts [] = refl
      rows-same dsts (src ∷ srcs) = rw (row-same src dsts) (
          together ones (flat (traverse (pair_policy d unweighted s.network src) dsts))
            (traverse (λ src. flat (traverse (pair_policy d unweighted s.network src) dsts)) srcs) _
            (rows-same dsts srcs))

    -- While no link has an average, and the shortest paths pass along links, the policy of version 2 is
    -- the one that version 1 makes on the shortest paths of equal weights; and another version takes no
    -- notice of the averages.
    pub weighted_policy-routing_policy :
        ((version == 2) ≡ false) ⊎ IsCalm
        → weighted_policy d fl weight one version shortest_path s ≡ routing_policy d unweighted s
    unfolding weighted_policy routing_policy
    weighted_policy-routing_policy calm = rw (rows-same calm (hosts d s) (hosts d s)) (
        last ones
          (traverse (λ src. flat (traverse (pair_policy d unweighted s.network src) (hosts d s)))
            (hosts d s))
          _)
