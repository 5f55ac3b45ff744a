-- ===== src/Topologies/Tree.antt =====
-- topology/scripts/tree.py: multiply and mk_topo, for a fanout and a depth that are not negative.
pub mod Nodes
pub mod Levels
use mathlib.Core.Option
use frenetic.Base.{
  ℕ, zero, suc, ◌+◌, ◌-◌, ◌*◌, ◌/◌, ◌^◌, Bool, ◌||◌, List, [], ◌∷◌, ◌++◌, map, length, Option, none,
  some, Result, ok, err, ◌>>=◌, or_raise, attribute_error, value_error, zero_division_error, ◌==◌,
  if◌then◌else◌,
}
use frenetic.Base.Int.{ℤ, pos, negsuc, sub_ℕ, mul_ℤ}
use frenetic.Base.Text.{Text, codes}
use frenetic.Base.Decimal.{show, is_digit, parse_int}
use frenetic.Topologies.Graph.{Node, Edge, Graph, text, link, host_node, switch_node}
use frenetic.Topologies.Loops.{range, elem, for_each}

-- str(n)
abbrev pub show_int : ℤ → Text
show_int (pos n) = show n
show_int (negsuc n) = b'-' ∷ show (n + 1)

-- The match of `(\d+)([KMGT]?[Bb]ps)`, at the front of the text: its two groups.
abbrev digits : Text → Text × Text
digits [] = ([], [])
digits (c ∷ s) = let (num, rest) = digits s in if is_digit c then (c ∷ num, rest) else ([], c ∷ s)

abbrev per_second : Text → Option Text
per_second (b ∷ p ∷ s ∷ rest) =
    if (b == b'B' || b == b'b')
    then (if p == b'p' then (if s == b's' then some (b ∷ p ∷ s ∷ []) else none) else none)
    else none
per_second _ = none

abbrev is_multiple : ℕ → Bool
is_multiple c = c == b'K' || c == b'M' || c == b'G' || c == b'T'

abbrev rate : Text → Option Text
rate [] = none
rate (c ∷ s) = if is_multiple c then Option.map (λ r. c ∷ r) (per_second s) else per_second (c ∷ s)

abbrev groups : Text → Text → Option (Text × Text)
groups [] rest = none
groups (c ∷ num) rest = Option.map (λ r. (c ∷ num, r)) (rate rest)

unfoldable pub match_bandwidth : Text → Option (Text × Text)
unfolding is_digit
match_bandwidth bw = let (num, rest) = digits bw in groups num rest

abbrev coefficient : ℤ → ℤ → ℤ → ℤ
coefficient num (pos zero) mult = num
coefficient num depth mult = mul_ℤ (mul_ℤ num depth) mult

-- Without a match there are no groups to read.
unfoldable pub multiply : ℤ → Text → ℤ → Result Text
unfolding match_bandwidth parse_int show
multiply depth bw mult = do
  m ← or_raise attribute_error (match_bandwidth bw)
  num ← or_raise value_error (parse_int m.0)
  ok (show_int (coefficient num depth mult) ++ m.1)

-- `(1 - (fanout ** depth)) / (1 - fanout)`, where the division rounds down
unfoldable pub num_switches : ℕ → ℕ → Result ℕ
num_switches fanout depth =
    if fanout == 1
    then err zero_division_error
    else if fanout == 0
    then ok (1 - fanout ^ depth)
    else ok ((fanout ^ depth - 1) / (fanout - 1))

-- `xs[lo:hi]`
abbrev pub drop : ℕ → List Node → List Node
drop zero xs = xs
drop (suc n) [] = []
drop (suc n) (x ∷ xs) = drop n xs

abbrev pub take : ℕ → List Node → List Node
take zero xs = []
take (suc n) [] = []
take (suc n) (x ∷ xs) = x ∷ take n xs

abbrev pub slice : ℕ → ℕ → List Node → List Node
slice lo hi xs = take (hi - lo) (drop lo xs)

module _ (fanout depth : ℕ) (bw : Text) (mult : ℤ) where
  -- Each node connects to its parent on port 0.
  abbrev pub child_links : List Node → ℕ → Node → ℕ → Unit {0} → Result (Unit {0} × List Edge)
  child_links currents i parent j u = do
    child ← elem currents (i * fanout + j)
    cap ← multiply (sub_ℕ depth i) bw mult
    ok (u, link parent.0 (j + 1) child.0 0 cap (text (codes "1")))

  abbrev pub parent_links : List Node → List Node → ℕ → Unit {0} → Result (Unit {0} × List Edge)
  parent_links parents currents i u = do
    parent ← elem parents i
    for_each (child_links currents i parent) (range 0 fanout) u

  -- A level, with the offsets of the level above it and of its own.
  abbrev pub level_links : List Node → ℕ → ℕ × ℕ → Result ((ℕ × ℕ) × List Edge)
  level_links nodes d (parent_offset, offset) =
      let num_nodes = fanout ^ d in
      let next : ℕ × ℕ = (offset, offset + num_nodes) in
      if num_nodes == 1
      then ok (next, [])
      else (let parents = slice parent_offset offset nodes in
          let currents = slice offset (offset + num_nodes) nodes in
          for_each (parent_links parents currents) (range 0 (length parents)) tt >>= λ links.
          ok (next, links.1))

  unfoldable pub mk_topo : (eui ip_address : ℕ → Text) → Result Graph
  unfolding num_switches multiply host_node switch_node
  mk_topo eui ip_address = do
    n ← num_switches fanout depth
    let switches = map switch_node (range 1 n)
    let hosts = map (host_node eui ip_address) (range 1 (fanout ^ depth))
    links ← for_each (level_links (switches ++ hosts)) (range 0 (depth + 1)) (0, 0)
    ok (record { nodes = switches ++ hosts; edges = links.1 })
