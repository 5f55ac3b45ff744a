-- ===== src/Discovery/Weights/Counting.antt =====
-- lang/python/frenetic/examples/discovery/topology.py: the counts of links, after the answer for one of them.
use mathlib.Core.Path.{subst}
use frenetic.Base.{
  ℕ, true, false, ◌≡◌, refl, ap, sym, ◌∙◌, List, [], ◌∷◌, some, Result, ok, any, All, arith,
  if◌then◌else◌, Bool-cases, inl, inr,
}
use frenetic.Discovery.Graph.{Node, node_eq_refl, node_eq→eq, DiGraph}
use frenetic.Discovery.Weights.Defs.{Floats, Count, update_callback}
use frenetic.Discovery.Weights.Round.{Edge, edge_eq, Counted, IsCounted, Stats}

edge_eq→eq : (e f : Edge) → edge_eq e f ≡ true → e ≡ f
edge_eq→eq (u, v) (i, j) h =
    let p = node_eq→eq u i (ground arith) in
    let q = node_eq→eq v j (ground arith) in rw p (rw q refl)

edge_eq_refl : (e : Edge) → edge_eq e e ≡ true
edge_eq_refl (u, v) = rw (node_eq_refl u) (rw (node_eq_refl v) refl)

edge_eq-false : (e f : Edge) → edge_eq e f ≡ false → edge_eq f e ≡ false
edge_eq-false e f h = elim (Bool-cases (edge_eq f e)) [
  | inl k ↦
      absurd
        (clash (sym (edge_eq_refl f) ∙ subst (λ x. edge_eq x f ≡ false) (sym (edge_eq→eq f e k)) h))
  | inr k ↦ k
]
  where
    clash : true ≡ false → ⊥
    clash k = cc

module _ {G F : Type 0} (d : DiGraph G) (c : Counted G F) (fl : Floats F) (law : IsCounted d c)
    (reply : Edge → Stats F) where
  -- What an answer makes of the counts of an edge.
  abbrev pub fresh : G → Edge → List (Count F) × Result F
  fresh g (u, v) = let (rx, tx, now) = reply (u, v) in update_callback fl rx tx now (c.counts u v g)

  abbrev pub IsLabelled : G → Edge → Type 0
  IsLabelled g (u, v) = (l : ℕ) × (d.edge u v g ≡ some (some l))

  -- The average of the counts is made without an exception.
  abbrev pub IsAveraged : G → Edge → Type 0
  IsAveraged g e = (w : F) × ((fresh g e).1 ≡ ok w)

  -- The links of a graph are still there, and those of a list are counted.
  abbrev pub AreCounted : G → List Edge → G → Type 0
  AreCounted g edges g' =
      ((i j : Node) → d.edge i j g' ≡ d.edge i j g)
      × ((i j : Node)
          → c.counts i j g' ≡ (
              if any (λ e. edge_eq e (i, j)) edges
              then some (fresh g (i, j)).0
              else c.counts i j g))

  -- The graph after one answer.
  module _ (g : G) (u v : Node) (l : ℕ) (w : F) (there : d.edge u v g ≡ some (some l)) where
    abbrev pub one : G
    one = c.add_counts u v l w (fresh g (u, v)).0 g

    pub IsLabelled-later : (rest : List Edge) → All (IsLabelled g) rest → All (IsLabelled one) rest
    IsLabelled-later [] h = tt
    IsLabelled-later ((i, j) ∷ rest) ((k, e), h) = (
      (k, law.edge-add_counts u v i j l w (fresh g (u, v)).0 g there ∙ e),
      IsLabelled-later rest h,
    )

    counts-one : (i j : Node) → edge_eq (u, v) (i, j) ≡ false → c.counts i j one ≡ c.counts i j g
    counts-one i j h = law.counts-add_counts u v i j l w (fresh g (u, v)).0 g there ∙ rw h refl

    pub IsAveraged-later :
        (rest : List Edge)
        → any (λ k. edge_eq k (u, v)) rest ≡ false
        → All (IsAveraged g) rest
        → All (IsAveraged one) rest
    IsAveraged-later [] a h = tt
    IsAveraged-later ((i, j) ∷ rest) a ((x, e), h) = (
      (
        x,
        ap (λ o. (let (rx, tx, now) = reply (i, j) in update_callback fl rx tx now o).1)
              (counts-one i j (edge_eq-false (i, j) (u, v) (ground arith)))
            ∙ e,
      ),
      IsAveraged-later rest (ground arith) h,
    )

    -- The counts of an edge, when those of the rest have been changed as well.
    abbrev IsStep : List Edge → Edge → Type 0
    IsStep rest (i, j) =
        (if any (λ e. edge_eq e (i, j)) rest then some (fresh one (i, j)).0 else c.counts i j one)
        ≡ (if any (λ e. edge_eq e (i, j)) ((u, v) ∷ rest)
            then some (fresh g (i, j)).0
            else c.counts i j g)

    step :
        (rest : List Edge)
        → any (λ k. edge_eq k (u, v)) rest ≡ false
        → (i j : Node) → IsStep rest (i, j)
    step rest a i j = elim (Bool-cases (edge_eq (u, v) (i, j))) [
      | inl e ↦ subst (IsStep rest) (edge_eq→eq (u, v) (i, j) e) here
      | inr e ↦ rw e (rw (counts-one i j e) refl)
    ]
      where
        here : IsStep rest (u, v)
        here = rw a (
            law.counts-add_counts u v u v l w (fresh g (u, v)).0 g there
            ∙ rw (edge_eq_refl (u, v)) refl)

    pub counted-later :
        (rest : List Edge) (g' : G)
        → any (λ k. edge_eq k (u, v)) rest ≡ false
        → AreCounted one rest g'
        → AreCounted g ((u, v) ∷ rest) g'
    counted-later rest g' a (same, counted) = (
      λ i j. same i j ∙ law.edge-add_counts u v i j l w (fresh g (u, v)).0 g there,
      λ i j. counted i j ∙ step rest a i j,
    )
