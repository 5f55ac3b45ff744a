-- ===== src/Topologies/Tree/Levels.antt =====
-- topology/scripts/tree.py: what mk_topo comes to, level by level.
use native.Mathlib.Nat.{pow-suc, pow-zero}
use frenetic.Base.{
  ℕ, zero, suc, ◌+◌, ◌*◌, ◌^◌, ◌<◌, ◌≤◌, ◌≡◌, refl, ap, ◌∙◌, List, [], ◌++◌, length, some, ok,
  arith,
}
use frenetic.Base.Int.{ℤ, sub_ℕ}
use frenetic.Base.Text.{Text, codes}
use frenetic.Base.Decimal.{parse_int}
use frenetic.Topologies.Graph.{Node, Edge, text, link}
use frenetic.Topologies.Loops.{range, elem, for_each, for_each-upto, upto, below-product}
use frenetic.Topologies.Tree.{
  show_int, match_bandwidth, coefficient, multiply, slice, child_links, parent_links, level_links,
  mk_topo,
}
use frenetic.Topologies.Tree.Nodes.{
  above, above_mono, num_switches-above, several, elem-slice, length-slice, switches, hosts,
  node_at, length-nodes, elem-nodes,
}

module _ (eui ip_address : ℕ → Text) (fanout depth : ℕ) (bw : Text) (mult num : ℤ)
    (unit : Text) where
  -- What each child of the parent at a place of its level has for its capacity.
  abbrev pub capacity : ℕ → Text
  capacity i = show_int (coefficient num (sub_ℕ depth i) mult) ++ unit

  abbrev pub name : ℕ → Text
  name i = (node_at eui ip_address fanout depth i).0

  -- The links from the level at a depth to the next.
  abbrev pub links_from : ℕ → List Edge
  links_from d = upto (fanout ^ d) (λ i. upto fanout (λ j.
      link (name (above fanout d + i)) (j + 1) (name (above fanout (suc d) + (i * fanout + j))) 0
        (capacity i) (text (codes "1"))))

  abbrev nodes : List Node
  nodes = switches eui ip_address fanout depth ++ hosts eui ip_address fanout depth

  abbrev level : ℕ → List Edge
  level zero = []
  level (suc d) = links_from d

  abbrev offsets : ℕ → ℕ × ℕ
  offsets zero = (0, 0)
  offsets (suc d) = (above fanout d, above fanout (suc d))

  module _ (two : 2 ≤ fanout)
      (cap : (i : ℕ) → multiply (sub_ℕ depth i) bw mult ≡ ok (capacity i)) where
    child-at :
        (d n : ℕ)
        → d ≤ depth
        → n < fanout ^ d
        → elem (slice (above fanout d) (above fanout (suc d)) nodes) n
          ≡ ok (node_at eui ip_address fanout depth (above fanout d + n))
    child-at d n le lt =
        elem-slice (above fanout d) (above fanout (suc d)) nodes n (omega arith)
        ∙ elem-nodes eui ip_address fanout depth (above fanout d + n)
            (omega (arith, above_mono fanout (suc d) (suc depth) (omega arith)))

    child_links-ok :
        (d i j : ℕ) (parent : Node)
        → d < depth
        → i < fanout ^ d
        → j < fanout
        → child_links fanout depth bw mult
            (slice (above fanout (suc d)) (above fanout (suc (suc d))) nodes)
            i
            parent
            j
            tt
          ≡ ok (
            tt,
            link parent.0
                (j + 1)
                (name (above fanout (suc d) + (i * fanout + j)))
                0
                (capacity i)
                (text (codes "1")),
          )
    child_links-ok d i j parent ld li lj =
        let p = pow-suc fanout d in
        let lt : i * fanout + j < fanout ^ suc d =
          omega (arith, p, below-product i fanout j (fanout ^ d) li lj) in
        rw (child-at (suc d) (i * fanout + j) ld lt) (rw (cap i) refl)

    parent_links-ok :
        (d i : ℕ)
        → d < depth
        → i < fanout ^ d
        → parent_links fanout depth bw mult
            (slice (above fanout d) (above fanout (suc d)) nodes)
            (slice (above fanout (suc d)) (above fanout (suc (suc d))) nodes)
            i
            tt
          ≡ ok (
            tt,
            upto fanout (λ j.
                link
                  (name (above fanout d + i))
                  (j + 1)
                  (name (above fanout (suc d) + (i * fanout + j)))
                  0
                  (capacity i)
                  (text (codes "1"))),
          )
    parent_links-ok d i ld li = rw (child-at d i (omega arith) li) (
        for_each-upto
          (child_links fanout depth bw mult
            (slice (above fanout (suc d)) (above fanout (suc (suc d))) nodes) i
            (node_at eui ip_address fanout depth (above fanout d + i)))
          fanout (λ j. tt) _ refl refl
          (λ j lj.
            child_links-ok d i j (node_at eui ip_address fanout depth (above fanout d + i)) ld li
              lj))

    fits : (d : ℕ) → suc d < depth + 1 → above fanout (suc d) ≤ length nodes
    fits d lt = omega (
      arith,
      length-nodes eui ip_address fanout depth,
      above_mono fanout (suc d) (suc depth) (omega arith),
    )

    size :
        (d : ℕ)
        → suc d < depth + 1
        → length (slice (above fanout d) (above fanout (suc d)) nodes) ≡ fanout ^ d
    size d lt = length-slice (above fanout d) (above fanout (suc d)) nodes (fits d lt) ∙ omega arith

    level_links-ok :
        (d : ℕ)
        → d < depth + 1
        → level_links fanout depth bw mult nodes d (offsets d) ≡ ok (offsets (suc d), level d)
    level_links-ok zero lt = rw (pow-zero fanout) refl
    level_links-ok (suc d) lt = rw (several fanout d two) (
        rw (size d lt) (
          (rw
            (for_each-upto
              (parent_links fanout depth bw mult
                (slice (above fanout d) (above fanout (suc d)) nodes)
                (slice (above fanout (suc d)) (above fanout (suc (suc d))) nodes))
              (fanout ^ d) (λ i. tt) _ refl refl (λ i li. parent_links-ok d i (omega arith) li))
            refl)))

    next : depth + 1 ≡ suc depth
    next = omega arith

    links-ok :
        for_each (level_links fanout depth bw mult nodes) (range 0 (depth + 1)) (0, 0)
        ≡ ok (offsets (depth + 1), upto depth links_from)
    links-ok =
        for_each-upto (level_links fanout depth bw mult nodes) (depth + 1) offsets level refl refl
          level_links-ok
        ∙ ap (λ n. ok (offsets (depth + 1), upto n level)) next

  multiply-ok :
      (digits : Text)
      → match_bandwidth bw ≡ some (digits, unit)
      → parse_int digits ≡ some num
      → (i : ℕ) → multiply (sub_ℕ depth i) bw mult ≡ ok (capacity i)
  unfolding multiply
  multiply-ok digits is_bw is_num i = rw is_bw (rw is_num refl)

  -- With a fanout of at least 2 and a bandwidth that matches, the script ends without an exception, and
  -- its links are those of the complete tree: the node at place i of a level is linked on its
  -- ports 1 to fanout with port 0 of the nodes at the places i * fanout to i * fanout + fanout - 1
  -- of the next level, and nothing else is linked.
  pub mk_topo-levels :
      (digits : Text)
      → 2 ≤ fanout
      → match_bandwidth bw ≡ some (digits, unit)
      → parse_int digits ≡ some num
      → mk_topo fanout depth bw mult eui ip_address
        ≡ ok (record {
          nodes = switches eui ip_address fanout depth ++ hosts eui ip_address fanout depth;
          edges = upto depth links_from;
        })
  unfolding mk_topo
  mk_topo-levels digits two is_bw is_num =
      let cap = multiply-ok digits is_bw is_num in
      rw (num_switches-above fanout depth two) (rw (links-ok two cap) refl)
