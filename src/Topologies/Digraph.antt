-- ===== src/Topologies/Digraph.antt =====
-- topology/scripts/graph2digraph.py: convert. A dictionary is a list of names and values, and a graph of
-- networkx the lists that its iterators give; the result is what is added, in the order of the calls.
use frenetic.Base.{
  List, [], ◌∷◌, ◌≡◌, sym, ap, ◌∙◌, inl, inr, Option-cases, >>=-eq-ok, Option, none, some, Result,
  ok, err, ◌>>=◌, or_raise, key_error, traverse, if◌then◌else◌,
}
use mathlib.Core.List.{flatten}
use frenetic.Base.Text.{Text, codes, text_eq}

abbrev pub Dict : Type 0
Dict = List (Text × Text)

unfoldable pub lookup : Text → Dict → Option Text
unfolding text_eq
lookup k [] = none
lookup k ((name, v) ∷ d) = if text_eq name k then some v else lookup k d

-- `d[k]`
abbrev pub item : Dict → Text → Result Text
item d k = or_raise key_error (lookup k d)

pub record Edge : Type 0 where
  pub src : Text
  pub dst : Text
  pub attrs : Dict

pub record Graph : Type 0 where
  pub nodes : List (Text × Dict)
  pub edges : List Edge
  pub graph : Dict

-- The attributes of the edge back.
unfoldable pub revattrs : Dict → Result Dict
unfolding lookup
revattrs attrs = do
  src_port ← item attrs (codes "dst_port")
  dst_port ← item attrs (codes "dst_port")
  capacity ← item attrs (codes "capacity")
  cost ← item attrs (codes "cost")
  ok (
      (codes "src_port", src_port)
      ∷ (codes "dst_port", dst_port)
      ∷ (codes "capacity", capacity)
      ∷ (codes "cost", cost)
      ∷ [])

abbrev both_ways : Edge → Result (List Edge)
both_ways e =
    revattrs e.attrs >>= λ attrs. ok (e ∷ record { src = e.dst; dst = e.src; attrs = attrs } ∷ [])

unfoldable pub convert : Graph → Result Graph
unfolding revattrs lookup
convert g = do
  edges ← traverse both_ways g.edges
  name ← item g.graph (codes "name")
  ok (record { nodes = g.nodes; edges = flatten edges; graph = (codes "name", name) ∷ [] })

ok_inj : {A : Type 0} {a b : A} → ok a ≡ ok b → a ≡ b
ok_inj h = cc

item-ok : (d : Dict) (k : Text) {v : Text} → item d k ≡ ok v → lookup k d ≡ some v
item-ok d k h = elim (Option-cases (lookup k d)) [
  | inl e ↦ absurd (clash (rw e at h))
  | inr (v, e) ↦ e ∙ ap some (ok_inj (rw e at h))
]
  where
    clash : {v : Text} → err key_error ≡ ok v → ⊥
    clash h = cc

-- The port on which a link arrives is the one that the edge back leaves from, and arrives on as well.
pub revattrs-ports :
    (attrs : Dict) {back : Dict}
    → revattrs attrs ≡ ok back
    → (lookup (codes "src_port") back ≡ lookup (codes "dst_port") attrs)
      × (lookup (codes "dst_port") back ≡ lookup (codes "dst_port") attrs)
unfolding revattrs lookup text_eq
revattrs-ports attrs h =
    let (port, p, h₁) = >>=-eq-ok (item attrs (codes "dst_port")) _ h in
    let (port', p', h₂) = >>=-eq-ok (item attrs (codes "dst_port")) _ h₁ in
    let (capacity, c, h₃) = >>=-eq-ok (item attrs (codes "capacity")) _ h₂ in
    let (cost, k, h₄) = >>=-eq-ok (item attrs (codes "cost")) _ h₃ in
    let q = item-ok attrs (codes "dst_port") p in
    let q' = item-ok attrs (codes "dst_port") p' in let e = ok_inj h₄ in rw (sym e) (sym q, sym q')
