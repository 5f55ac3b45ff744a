-- ===== src/Topologies/Fattree/Even.antt =====
-- topology/scripts/fattree.py: what mk_topo comes to with an even number of pods.
use frenetic.Base.{
  ℕ, suc, ◌+◌, ◌-◌, ◌*◌, ◌/◌, ◌^◌, ◌<◌, ◌≡◌, refl, ap, ◌∙◌, List, ◌∷◌, ◌++◌, map, ok, arith,
}
use frenetic.Base.Text.{Text}
use frenetic.Base.Decimal.{show}
use native.Mathlib.Nat.{suc-mul, pow-suc, pow-zero}
use frenetic.Topologies.Graph.{Node, Edge, host_node, switch_node}
use frenetic.Topologies.Loops.{
  range, elem, for_each, for_each-steps, for_each-upto, elem-map-range, upto, below-product,
}
use frenetic.Topologies.Fattree.{
  wire, to_core, to_lower, to_host, upper_links, lower_links, pod_links, mk_topo,
}

-- The network with 2 h pods, h * h core switches and 2 h switches in a pod, all of them with 2 h ports.
module _ (h : ℕ) (bw : Text) where
  abbrev pub switch_name : ℕ → Text
  switch_name i = b's' ∷ show (1 + i)

  abbrev pub core : ℕ → ℕ → Text
  core u q = switch_name (u * h + q)

  abbrev pub in_pod : ℕ → ℕ → Text
  in_pod p u = switch_name (h * h + (p * (2 * h) + u))

  abbrev pub host_name : ℕ → ℕ → ℕ → Text
  host_name p l q = b'h' ∷ show (1 + (p * (h * h) + (l * h + q)))

  abbrev pub upper : ℕ → ℕ → List Edge
  upper p u =
      upto h (λ q. wire bw (in_pod p u) q (core u q) p)
      ++ upto h (λ l. wire bw (in_pod p u) (h + l) (in_pod p (h + l)) u)

  abbrev pub lower : ℕ → ℕ → List Edge
  lower p l = upto h (λ q. wire bw (in_pod p (h + l)) (h + q) (host_name p l q) 0)

  abbrev pub fattree : List Edge
  fattree = upto (2 * h) (λ p. upto h (upper p) ++ upto h (lower p))

  half : (2 * h) / 2 ≡ h
  half = omega arith

  rest : 2 * h - h ≡ h
  rest = omega arith

  num_core : 2 * h * (2 * h) / 4 ≡ h * h
  num_core = omega arith

  cube : (2 * h) ^ 3 ≡ 2 * h * (2 * h) * (2 * h)
  cube =
      pow-suc (2 * h) 2
      ∙ ap (λ n. n * (2 * h))
          (pow-suc (2 * h) 1
            ∙ ap (λ n. n * (2 * h))
                (pow-suc (2 * h) 0 ∙ ap (λ n. n * (2 * h)) (pow-zero (2 * h)) ∙ omega arith))

  num_hosts : (2 * h) ^ 3 / 4 ≡ 2 * h * (h * h)
  num_hosts = ap (λ n. n / 4) cube ∙ omega arith

  next : (i : ℕ) → h * h + 1 + i ≡ 1 + (h * h + i)
  next i = omega arith

  agg_switch_at :
      (i : ℕ)
      → i < 2 * h * (2 * h)
      → elem (map switch_node (range (h * h + 1) (2 * h * (2 * h)))) i
        ≡ ok (switch_node (1 + (h * h + i)))
  agg_switch_at i lt =
      elem-map-range switch_node (h * h + 1) (2 * h * (2 * h)) i lt
      ∙ ap (λ j. ok (switch_node j)) (next i)

  -- The nodes, as the script's lists have them.
  module _ (eui ip_address : ℕ → Text) (hosts core_switches agg_switches : List Node)
      (host_at : (i : ℕ)
        → i < 2 * h * (h * h)
        → elem hosts i ≡ ok (host_node eui ip_address (1 + i)))
      (core_at : (i : ℕ) → i < h * h → elem core_switches i ≡ ok (switch_node (1 + i)))
      (agg_at : (i : ℕ)
        → i < 2 * h * (2 * h)
        → elem agg_switches i ≡ ok (switch_node (1 + (h * h + i)))) where
    to_core-ok :
        (p u q : ℕ) (sw : Node)
        → u < h
        → q < h
        → to_core (2 * h) bw core_switches p sw q (u * h + q)
          ≡ ok (u * h + suc q, wire bw sw.0 q (core u q) p)
    unfolding switch_node
    to_core-ok p u q sw lu lq =
        rw (core_at (u * h + q) (below-product u h q h lu lq))
          (ap (λ n. ok (n, wire bw sw.0 q (core u q) p)) (omega arith))

    to_lower-ok :
        (p u l n : ℕ) (sw : Node)
        → p < 2 * h
        → l < h
        → to_lower (2 * h) bw agg_switches p u sw (h + l) n
          ≡ ok (n, wire bw sw.0 (h + l) (in_pod p (h + l)) u)
    unfolding switch_node
    to_lower-ok p u l n sw lp ll =
        rw
          (agg_at (p * (2 * h) + (h + l))
            (below-product p (2 * h) (h + l) (2 * h) lp (omega (arith, ll))))
          refl

    to_host-ok :
        (p l q : ℕ) (sw : Node)
        → p < 2 * h
        → l < h
        → q < h
        → to_host (2 * h) bw hosts sw (h + q) (p * (h * h) + (l * h + q))
          ≡ ok (p * (h * h) + (l * h + suc q), wire bw sw.0 (h + q) (host_name p l q) 0)
    unfolding host_node
    to_host-ok p l q sw lp ll lq =
        rw
          (host_at (p * (h * h) + (l * h + q))
            (below-product p (h * h) (l * h + q) (2 * h) lp (below-product l h q h ll lq)))
          (ap (λ n. ok (n, wire bw sw.0 (h + q) (host_name p l q) 0)) (omega arith))

    upper_links-ok :
        (p u : ℕ)
        → p < 2 * h
        → u < h
        → upper_links (2 * h) bw core_switches agg_switches p u (u * h) ≡ ok (suc u * h, upper p u)
    unfolding switch_node
    upper_links-ok p u lp lu =
        let sw = switch_node (1 + (h * h + (p * (2 * h) + u))) in
        rw (agg_at (p * (2 * h) + u) (below-product p (2 * h) u (2 * h) lp (omega (arith, lu)))) (
          rw half (
            rw
              (for_each-upto (to_core (2 * h) bw core_switches p sw) h (λ q. u * h + q)
                (λ q. wire bw (in_pod p u) q (core u q) p) {s = u * h} {t = suc u * h} (omega arith)
                (omega (arith, suc-mul u h)) (λ q lq. to_core-ok p u q sw lu lq))
              (rw rest (
                rw
                  (for_each-steps (to_lower (2 * h) bw agg_switches p u sw) h h (λ l. suc u * h)
                    (λ l. wire bw (in_pod p u) (h + l) (in_pod p (h + l)) u) {t = suc u * h} refl
                    refl (λ l ll. to_lower-ok p u l (suc u * h) sw lp ll))
                  refl))))

    lower_links-ok :
        (p l : ℕ)
        → p < 2 * h
        → l < h
        → lower_links (2 * h) bw hosts agg_switches p (h + l) (p * (h * h) + l * h)
          ≡ ok (p * (h * h) + suc l * h, lower p l)
    unfolding switch_node
    lower_links-ok p l lp ll =
        let sw = switch_node (1 + (h * h + (p * (2 * h) + (h + l)))) in
        rw
          (agg_at (p * (2 * h) + (h + l))
            (below-product p (2 * h) (h + l) (2 * h) lp (omega (arith, ll))))
          (rw half (
            rw rest (
              for_each-steps (to_host (2 * h) bw hosts sw) h h (λ q. p * (h * h) + (l * h + q))
                (λ q. wire bw (in_pod p (h + l)) (h + q) (host_name p l q) 0) (omega arith)
                (omega (arith, suc-mul l h)) (λ q lq. to_host-ok p l q sw lp ll lq))))

    pod_links-ok :
        (p : ℕ)
        → p < 2 * h
        → pod_links (2 * h) bw hosts core_switches agg_switches p (p * (h * h))
          ≡ ok (suc p * (h * h), upto h (upper p) ++ upto h (lower p))
    pod_links-ok p lp = rw half (
        rw
          (for_each-upto (upper_links (2 * h) bw core_switches agg_switches p) h (λ u. u * h)
            (upper p) {s = 0} {t = h * h} (omega arith) refl (λ u lu. upper_links-ok p u lp lu))
          (rw rest (
            rw
              (for_each-steps (lower_links (2 * h) bw hosts agg_switches p) h h
                (λ l. p * (h * h) + l * h) (lower p) {s = p * (h * h)} {t = suc p * (h * h)}
                (omega arith) (omega (arith, suc-mul p (h * h))) (λ l ll. lower_links-ok p l lp ll))
              refl)))

    links-ok :
        for_each (pod_links (2 * h) bw hosts core_switches agg_switches) (range 0 (2 * h)) 0
        ≡ ok (2 * h * (h * h), fattree)
    links-ok =
        for_each-upto (pod_links (2 * h) bw hosts core_switches agg_switches) (2 * h)
          (λ p. p * (h * h)) (λ p. upto h (upper p) ++ upto h (lower p)) (omega arith) refl
          pod_links-ok

  -- With an even number of pods, the script ends without an exception, and its links are those of the fat
  -- tree: in a pod, switch u of the first half has its first ports on the core switches u * h + q, each on the
  -- port of the pod's number, and its other ports on the switches of the second half, whose other
  -- ports are on hosts, one after another.
  pub mk_topo-even :
      (eui ip_address : ℕ → Text)
      → mk_topo (2 * h) bw eui ip_address
        ≡ ok (record {
          nodes =
              map (host_node eui ip_address) (range 1 (2 * h * (h * h)))
              ++ map switch_node (range 1 (h * h))
              ++ map switch_node (range (h * h + 1) (2 * h * (2 * h)));
          edges = fattree;
        })
  unfolding mk_topo
  mk_topo-even eui ip_address =
      let hosts = map (host_node eui ip_address) (range 1 (2 * h * (h * h))) in
      let core_switches = map switch_node (range 1 (h * h)) in
      let agg_switches = map switch_node (range (h * h + 1) (2 * h * (2 * h))) in
      rw num_hosts (
        rw num_core (
          rw
            (links-ok eui ip_address hosts core_switches agg_switches
              (elem-map-range (host_node eui ip_address) 1 (2 * h * (h * h)))
              (elem-map-range switch_node 1 (h * h)) agg_switch_at)
            refl))
