-- ===== src/Discovery/Edge.antt =====
-- lang/python/frenetic/examples/discovery/state.py: network_edge is the ports of the switches that lead to
-- no switch, and a switch may be hidden by a probe.
use frenetic.Base.{
  ℕ, Bool, true, false, not, ◌&&◌, ◌||◌, ◌≡◌, refl, ◌↔◌, ap, ◌∙◌, List, [], ◌∷◌, ◌++◌, map, Option,
  none, some, Result, any, arith, is_some, ◌==◌, ==_refl, Bool-cases, inl, inr,
}
use mathlib.Core.List.{flatten}
use frenetic.Syntax.Ast.{Policy}
use frenetic.Discovery.Graph.{Node, switch, SwitchRef, DiGraph, IsDiGraph, node_eq_refl}
use frenetic.Discovery.State.{
  State, Observer, missing_switch, switches, is_label, is_internal, external_ports, network_edge,
  add_switch, add_edge,
}
use frenetic.Discovery.Topology.{switch_up, handle_probe}

-- The pair is in a list.
abbrev pub has_pair : ℕ → ℕ → List (ℕ × ℕ) → Bool
has_pair sw port es = any (λ e. e.0 == sw && e.1 == port) es

-- A switch of the list has the number and the port.
abbrev pub has_port : ℕ → ℕ → List SwitchRef → Bool
has_port sw port rs = any (λ r. r.0 == sw && any (λ p. p == port) r.1) rs

has_pair-append :
    (sw port : ℕ) (xs ys : List (ℕ × ℕ))
    → has_pair sw port (xs ++ ys) ≡ (has_pair sw port xs || has_pair sw port ys)
has_pair-append sw port [] ys = refl
has_pair-append sw port (x ∷ xs) ys = ground (arith, has_pair-append sw port xs ys)

module _ {G : Type 0} (d : DiGraph G) (s : State G) where
  has_pair-external_ports :
      (sw port n : ℕ) (ps : List ℕ)
      → has_pair sw port (external_ports d s n ps)
        ≡ ((n == sw && any (λ p. p == port) ps) && not (is_internal d s sw port))
  unfolding external_ports
  has_pair-external_ports sw port n [] = ground arith
  has_pair-external_ports sw port n (p ∷ ps) = ground (arith, has_pair-external_ports sw port n ps)

  has_pair-refs :
      (sw port : ℕ) (rs : List SwitchRef)
      → has_pair sw port (flatten (map (λ r. external_ports d s r.0 r.1) rs))
        ≡ (has_port sw port rs && not (is_internal d s sw port))
  unfolding flatten
  has_pair-refs sw port [] = refl
  has_pair-refs sw port (r ∷ rs) =
      has_pair-append sw port (external_ports d s r.0 r.1) _
      ∙ rw (has_pair-external_ports sw port r.0 r.1) (rw (has_pair-refs sw port rs) (ground arith))

  module _ (laws : IsDiGraph d) where
    -- A link to a switch makes its port internal, and an internal port has such a link.
    linked-is_internal :
        (sw port : ℕ) (j : Node)
        → is_some (d.switch_ref j s.network) ≡ true
        → d.edge (switch sw) j s.network ≡ some (some port)
        → is_internal d s sw port ≡ true
    unfolding is_internal
    linked-is_internal sw port j r f =
        laws.out_edges-any (λ n l. is_some (d.switch_ref n s.network) && is_label d port l)
          (switch sw) j (some port) s.network f (rw r (==_refl port))

    label_eq : (port : ℕ) (l : Option ℕ) → is_label d port l ≡ true → l ≡ some port
    label_eq port none h = cc
    label_eq port (some l) h = ground arith

    is_internal-linked :
        (sw port : ℕ)
        → is_internal d s sw port ≡ true
        → (j : Node) × (is_some (d.switch_ref j s.network) ≡ true)
          × (d.edge (switch sw) j s.network ≡ some (some port))
    unfolding is_internal
    is_internal-linked sw port h =
        let (j, l, e, q) =
          laws.any-out_edges (λ n l. is_some (d.switch_ref n s.network) && is_label d port l)
            (switch sw) s.network h in
        (j, ground arith, e ∙ ap some (label_eq port l (ground arith)))

    -- On any graphs that behave as documented: a port of a switch is on the edge of the network exactly if
    -- the switch is known with that port, and no link from the port leads to a switch.
    pub network_edge_iff :
        (sw port : ℕ)
        → (has_pair sw port (network_edge d s) ≡ true) ↔ (
            (has_port sw port (switches d s) ≡ true)
            × ((j : Node)
                → is_some (d.switch_ref j s.network) ≡ true
                → d.edge (switch sw) j s.network ≡ some (some port)
                → ⊥))
    unfolding network_edge
    network_edge_iff sw port = (
      λ h.
          let e : (has_port sw port (switches d s) && not (is_internal d s sw port)) ≡ true =
            rw (has_pair-refs sw port (switches d s)) at h in
          (ground arith, λ j r f. let i = linked-is_internal sw port j r f in ground arith),
      λ h. rw (has_pair-refs sw port (switches d s)) (rw h.0 (external h.1)),
    )
      where
        external :
            ((j : Node)
              → is_some (d.switch_ref j s.network) ≡ true
              → d.edge (switch sw) j s.network ≡ some (some port)
              → ⊥)
            → not (is_internal d s sw port) ≡ true
        external unlinked = elim (Bool-cases (is_internal d s sw port)) [
          | inl i ↦ let (j, r, f) = is_internal-linked sw port i in absurd (unlinked j r f)
          | inr i ↦ rw i refl
        ]

module _ {G : Type 0} (d : DiGraph G) (laws : IsDiGraph d)
    (run_update : Observer → State G → Result Policy) where
  switch_ref-add_edge :
      (u v n : Node) (l : Option ℕ) (s : State G)
      → d.switch_ref n (add_edge d run_update u v l false s).0.network ≡ d.switch_ref n s.network
  unfolding add_edge
  switch_ref-add_edge u v n l s = elim (Bool-cases (missing_switch d run_update u s.network)) [
    | inl m ↦ rw m refl
    | inr m ↦ elim (Bool-cases (is_some (d.edge u v s.network))) [
      | inl e ↦ rw m (rw e refl)
      | inr e ↦ rw m (rw e (laws.switch_ref-add_edge u v n l s.network))
    ]
  ]

  has_node_kept :
      (u v n : Node) (l : Option ℕ) (s : State G)
      → d.has_node n s.network ≡ true
      → d.has_node n (add_edge d run_update u v l false s).0.network ≡ true
  unfolding add_edge
  has_node_kept u v n l s h = elim (Bool-cases (missing_switch d run_update u s.network)) [
    | inl m ↦ rw m h
    | inr m ↦ elim (Bool-cases (is_some (d.edge u v s.network))) [
      | inl e ↦ rw m (rw e h)
      | inr e ↦ rw m (rw e (rw (laws.has_node-add_edge u v n l s.network) (rw h (ground arith))))
    ]
  ]

  -- The first edge of a probe between a known switch and another one is added, and then the second.
  handle_probe-first :
      (dst dst_port src src_port : ℕ) (s : State G)
      → d.has_node (switch dst) s.network ≡ true
      → d.edge (switch dst) (switch src) s.network ≡ none
      → (handle_probe d run_update dst dst_port src src_port s).0
        ≡ (add_edge d run_update (switch src) (switch dst) (some src_port) false (record s {
          network = d.add_edge (switch dst) (switch src) (some dst_port) s.network;
          clean = false;
        })).0
  unfolding handle_probe add_edge
  handle_probe-first dst dst_port src src_port s k e = rw k (rw e refl)

  switch_up-known :
      (sw : ℕ) (ports : List ℕ) (s : State G)
      → d.has_node (switch sw) s.network ≡ true
      → (switch_up d run_update sw ports s).0 ≡ s
  unfolding switch_up add_switch
  switch_up-known sw ports s h = rw h refl

  -- A switch without a reference, which a probe that a known switch has received names as its source
  -- before it comes up, is still without one when it has come up, so it is not among the switches: the
  -- probe has added its node.
  pub switch_ref-switch_up :
      (dst dst_port src src_port : ℕ) (ports : List ℕ) (s : State G)
      → d.has_node (switch dst) s.network ≡ true
      → d.switch_ref (switch src) s.network ≡ none
      → d.edge (switch dst) (switch src) s.network ≡ none
      → d.switch_ref
          (switch src)
          (switch_up d run_update src ports
            (handle_probe d run_update dst dst_port src src_port s).0).0.network
        ≡ none
  switch_ref-switch_up dst dst_port src src_port ports s k h e =
      let g = d.add_edge (switch dst) (switch src) (some dst_port) s.network in
      let s₁ : State G = record s { network = g; clean = false } in
      let s₂ = (add_edge d run_update (switch src) (switch dst) (some src_port) false s₁).0 in
      rw (handle_probe-first dst dst_port src src_port s k e) (
        ap (λ (t : State G). d.switch_ref (switch src) t.network)
          (switch_up-known src ports s₂ (
            has_node_kept (switch src) (switch dst) (switch src) (some src_port) s₁ (
              rw
                (laws.has_node-add_edge (switch dst) (switch src) (switch src) (some dst_port)
                  s.network)
                (rw (node_eq_refl (switch src)) (ground arith)))))
        ∙ switch_ref-add_edge (switch src) (switch dst) (switch src) (some src_port) s₁
        ∙ laws.switch_ref-add_edge (switch dst) (switch src) (switch src) (some dst_port) s.network
        ∙ h)
