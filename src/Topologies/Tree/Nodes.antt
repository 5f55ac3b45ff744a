-- ===== src/Topologies/Tree/Nodes.antt =====
-- topology/scripts/tree.py: the nodes of the tree, and slices of their list.
use mathlib.Core.Path.{subst}
use native.Mathlib.Nat.{pow-suc, pow-zero, mul-div_cancel_left, add-zero, add-suc, suc-add}
use frenetic.Base.{
  ℕ, zero, suc, ◌+◌, ◌-◌, ◌*◌, ◌/◌, ◌^◌, ◌<◌, ◌≤◌, ◌≡◌, false, Bool-cases, inl, inr, refl, ap, sym,
  ◌∙◌, List, [], ◌∷◌, ◌++◌, map, length, length-append, length-map, ok, arith, ltb, ltb→lt, ◌==◌,
  if◌then◌else◌,
}
use frenetic.Base.Text.{Text}
use frenetic.Topologies.Graph.{Node, host_node, switch_node}
use frenetic.Topologies.Loops.{range, elem, elem-map-range}
use frenetic.Topologies.Tree.{num_switches, drop, take, slice}

-- The number of nodes above a level.
abbrev pub above : ℕ → ℕ → ℕ
above fanout zero = 0
above fanout (suc d) = above fanout d + fanout ^ d

above-closed : (g d : ℕ) → g * above (suc g) d + 1 ≡ suc g ^ d
above-closed g zero = omega (arith, pow-zero (suc g))
above-closed g (suc d) =
    let p = pow-suc (suc g) d in let i = above-closed g d in omega (arith, p, i)

pub pow_pos : (g d : ℕ) → 0 < suc g ^ d
pow_pos g d = omega (arith, above-closed g d)

above_step : (f d n : ℕ) → above f d ≤ above f (d + n)
above_step f d zero = rw (add-zero d) (omega arith)
above_step f d (suc n) = rw (add-suc d n) (omega (arith, above_step f d n))

pub above_mono : (f d n : ℕ) → d ≤ n → above f d ≤ above f n
above_mono f d n le =
    let q : d + (n - d) ≡ n = omega arith in
    subst (λ m. above f d ≤ above f m) q (above_step f d (n - d))

-- The script's count of the switches is exact.
exact_switches : (k d : ℕ) → num_switches (suc (suc k)) d ≡ ok (above (suc (suc k)) d)
unfolding num_switches
exact_switches k d =
    let one : (suc (suc k) == 1) ≡ false = ground arith in
    let none : (suc (suc k) == 0) ≡ false = ground arith in
    rw one (
      rw none
        (ap ok (exact ∙ mul-div_cancel_left (above (suc (suc k)) d) {n = suc k} (omega arith))))
  where
    exact : (suc (suc k) ^ d - 1) / (suc (suc k) - 1) ≡ suc k * above (suc (suc k)) d / suc k
    exact =
        let num : suc (suc k) ^ d - 1 ≡ suc k * above (suc (suc k)) d =
          omega (arith, above-closed (suc k) d) in
        let den : suc (suc k) - 1 ≡ suc k = omega arith in rw num (rw den refl)

pub num_switches-above : (fanout d : ℕ) → 2 ≤ fanout → num_switches fanout d ≡ ok (above fanout d)
num_switches-above zero d le = absurd (omega arith)
num_switches-above (suc zero) d le = absurd (omega arith)
num_switches-above (suc (suc k)) d le = exact_switches k d

-- A level below the root has more than one node.
pub several : (fanout e : ℕ) → 2 ≤ fanout → (fanout ^ suc e == 1) ≡ false
several zero e le = absurd (omega arith)
several (suc zero) e le = absurd (omega arith)
several (suc (suc k)) e le =
    let p = pow-suc (suc (suc k)) e in let q = pow_pos (suc k) e in ground arith

elem-take : (n : ℕ) (xs : List Node) (i : ℕ) → i < n → elem (take n xs) i ≡ elem xs i
elem-take zero xs i lt = absurd (omega arith)
elem-take (suc n) [] i lt = refl
elem-take (suc n) (x ∷ xs) zero lt = refl
elem-take (suc n) (x ∷ xs) (suc i) lt = elem-take n xs i (omega arith)

elem-drop : (n : ℕ) (xs : List Node) (i : ℕ) → elem (drop n xs) i ≡ elem xs (n + i)
elem-drop zero xs i = ap (elem xs) (omega arith)
elem-drop (suc n) [] i = refl
elem-drop (suc n) (x ∷ xs) i = elem-drop n xs i ∙ sym (ap (elem (x ∷ xs)) (suc-add n i))

pub elem-slice :
    (lo hi : ℕ) (xs : List Node) (i : ℕ) → lo + i < hi → elem (slice lo hi xs) i ≡ elem xs (lo + i)
elem-slice lo hi xs i lt = elem-take (hi - lo) (drop lo xs) i (omega arith) ∙ elem-drop lo xs i

length-take : (n : ℕ) (xs : List Node) → n ≤ length xs → length (take n xs) ≡ n
length-take zero xs le = refl
length-take (suc n) [] le = absurd (omega arith)
length-take (suc n) (x ∷ xs) le = ap suc (length-take n xs (omega arith))

length-drop : (n : ℕ) (xs : List Node) → length (drop n xs) ≡ length xs - n
length-drop zero xs = omega arith
length-drop (suc n) [] = omega arith
length-drop (suc n) (x ∷ xs) = length-drop n xs ∙ omega arith

pub length-slice : (lo hi : ℕ) (xs : List Node) → hi ≤ length xs → length (slice lo hi xs) ≡ hi - lo
length-slice lo hi xs le = length-take (hi - lo) (drop lo xs) (omega (arith, length-drop lo xs))

elem-append_left : (xs ys : List Node) (i : ℕ) → i < length xs → elem (xs ++ ys) i ≡ elem xs i
elem-append_left [] ys i lt = absurd (omega arith)
elem-append_left (x ∷ xs) ys zero lt = refl
elem-append_left (x ∷ xs) ys (suc i) lt = elem-append_left xs ys i (omega arith)

elem-append_right : (xs ys : List Node) (i : ℕ) → elem (xs ++ ys) (length xs + i) ≡ elem ys i
elem-append_right [] ys i = ap (elem ys) (omega arith)
elem-append_right (x ∷ xs) ys i =
    ap (elem (x ∷ xs ++ ys)) (suc-add (length xs) i) ∙ elem-append_right xs ys i

length-range : (lo n : ℕ) → length (range lo n) ≡ n
length-range lo zero = refl
length-range lo (suc n) = ap suc (length-range (lo + 1) n)

module _ (eui ip_address : ℕ → Text) (fanout depth : ℕ) where
  abbrev pub switches : List Node
  switches = map switch_node (range 1 (above fanout depth))

  abbrev pub hosts : List Node
  hosts = map (host_node eui ip_address) (range 1 (fanout ^ depth))

  -- The nodes level by level: the switches and, on the last level, the hosts.
  abbrev pub node_at : ℕ → Node
  node_at i =
      if ltb i (above fanout depth)
      then switch_node (1 + i)
      else host_node eui ip_address (1 + (i - above fanout depth))

  pub length-nodes : length (switches ++ hosts) ≡ above fanout (suc depth)
  length-nodes =
      length-append switches hosts
      ∙ rw (length-map switch_node (range 1 (above fanout depth))) (
          rw (length-map (host_node eui ip_address) (range 1 (fanout ^ depth)))
            (rw (length-range 1 (above fanout depth)) (rw (length-range 1 (fanout ^ depth)) refl)))

  length-switches : length switches ≡ above fanout depth
  length-switches =
      length-map switch_node (range 1 (above fanout depth)) ∙ length-range 1 (above fanout depth)

  pub elem-nodes :
      (i : ℕ) → i < above fanout (suc depth) → elem (switches ++ hosts) i ≡ ok (node_at i)
  elem-nodes i lt = elim (Bool-cases (ltb i (above fanout depth))) [
    | inl e ↦ rw e (
        elem-append_left switches hosts i
          (omega (arith, length-switches, ltb→lt i (above fanout depth) e))
        ∙ elem-map-range switch_node 1 (above fanout depth) i (ltb→lt i (above fanout depth) e))
    | inr e ↦
        let n = length-switches in
        let split : i ≡ length switches + (i - above fanout depth) = ground arith in
        let small : i - above fanout depth < fanout ^ depth = ground arith in
        rw e (
          ap (elem (switches ++ hosts)) split
          ∙ elem-append_right switches hosts (i - above fanout depth)
          ∙ elem-map-range (host_node eui ip_address) 1 (fanout ^ depth) (i - above fanout depth)
              small)
  ]
