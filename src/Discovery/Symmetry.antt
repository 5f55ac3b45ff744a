-- ===== src/Discovery/Symmetry.antt =====
-- lang/python/frenetic/examples/discovery: the links of the network that has been discovered go both ways.
use frenetic.Base.{
  ℕ, Bool, true, false, ◌||◌, ◌&&◌, ◌≡◌, refl, sym, ◌∙◌, List, Option, none, some, Result, ok, err,
  arith, is_some, if◌then◌else◌, Bool-cases, inl, inr,
}
use mathlib.Core.Path.{subst}
use frenetic.Base.Text.{Text}
use frenetic.Syntax.Ast.{Policy}
use frenetic.Discovery.Graph.{
  Node, switch, host, nobody, DiGraph, IsDiGraph, node_eq, node_eq_refl, node_eq→eq,
}
use frenetic.Discovery.State.{
  State, Observer, Updates, notified, notify, add_switch, add_edge, missing_switch, and_after,
  remove_node, switches,
}
use frenetic.Discovery.Topology.{
  switch_up, switch_down, handle_probe, attach, mac_node, is_switch, handle_sniff,
}

module _ {G : Type 0} (d : DiGraph G) where
  -- A link from one node to another is one from the other to the one.
  pub record IsSymmetric (g : G) : Type 0 where
    pub both_ways : (i j : Node) → is_some (d.edge i j g) ≡ is_some (d.edge j i g)

module _ {G : Type 0} (d : DiGraph G) (laws : IsDiGraph d)
    (run_update : Observer → State G → Result Policy) where
  notified-network :
      (s : State G) (r : Result Updates) → (notified d run_update s r).0.network ≡ s.network
  notified-network s (ok us) = refl
  notified-network s (err e) = refl

  notify-network : (s : State G) → (notify d run_update s).0.network ≡ s.network
  unfolding notify
  notify-network s = either s.clean _ _ refl (notified-network s _)
    where
      either :
          (b : Bool) (x y : State G × Result Updates)
          → x.0.network ≡ s.network
          → y.0.network ≡ s.network
          → (if b then x else y).0.network ≡ s.network
      either true x y h k = h
      either false x y h k = k

  not_some : (o : Option (Option ℕ)) → is_some o ≡ false → o ≡ none
  not_some none h = refl
  not_some (some a) h = cc

  there_already :
      (u v i j : Node) (g : G)
      → is_some (d.edge u v g) ≡ true
      → is_some (d.edge i j g) ≡ ((node_eq u i && node_eq v j) || is_some (d.edge i j g))
  there_already u v i j g h = elim (Bool-cases (node_eq u i)) [
    | inr e ↦ rw e refl
    | inl e ↦ elim (Bool-cases (node_eq v j)) [
      | inr f ↦ rw e (rw f refl)
      | inl f ↦ rw e (rw f (rw (← node_eq→eq u i e) (rw (← node_eq→eq v j f) h)))
    ]
  ]

  added-is_some :
      (u v i j : Node) (l : Option ℕ) (g : G)
      → is_some (d.edge u v g) ≡ false
      → is_some (d.edge i j (d.add_edge u v l g))
        ≡ ((node_eq u i && node_eq v j) || is_some (d.edge i j g))
  added-is_some u v i j l g e = rw (laws.edge-add_edge u v i j l g (not_some _ e)) (ground arith)

  add_edge-is_some :
      (u v i j : Node) (l : Option ℕ) (s : State G)
      → missing_switch d run_update u s.network ≡ false
      → is_some (d.edge i j (add_edge d run_update u v l false s).0.network)
        ≡ ((node_eq u i && node_eq v j) || is_some (d.edge i j s.network))
  unfolding add_edge
  add_edge-is_some u v i j l s m = elim (Bool-cases (is_some (d.edge u v s.network))) [
    | inl e ↦ rw m (rw e (there_already u v i j s.network e))
    | inr e ↦ rw m (rw e (added-is_some u v i j l s.network e))
  ]

  -- An edge that is there is not added, also if the library raises an exception.
  add_edge-there :
      (u v : Node) (l : Option ℕ) (s : State G)
      → is_some (d.edge u v s.network) ≡ true
      → (add_edge d run_update u v l false s).0 ≡ s
  unfolding add_edge
  add_edge-there u v l s e = elim (Bool-cases (missing_switch d run_update u s.network)) [
    | inl m ↦ rw m refl
    | inr m ↦ rw m (rw e refl)
  ]

  missing-added :
      (u v : Node) (l : Option ℕ) (g : G)
      → missing_switch d run_update v (d.add_edge u v l g) ≡ false
  missing-added u (switch n) l g =
      rw (laws.has_node-add_edge u (switch n) (switch n) l g)
        (rw (node_eq_refl (switch n)) (ground arith))
  missing-added u (host mac) l g = refl
  missing-added u nobody l g = refl

  -- The state to which an edge has been added.
  abbrev with_edge : Node → Node → Option ℕ → State G → State G
  with_edge u v l s = record s { network = d.add_edge u v l s.network; clean = false }

  -- Two edges, there and back, keep the symmetry, also where an exception comes between.
  link-IsSymmetric :
      (u v : Node) (l k : Option ℕ) (s : State G)
      → IsSymmetric d s.network
      → IsSymmetric d
          (and_after d run_update
            (add_edge d run_update u v l false s)
            (add_edge d run_update v u k false)).0.network
  unfolding add_edge
  link-IsSymmetric u v l k s h = elim (Bool-cases (missing_switch d run_update u s.network)) [
    | inl m ↦ rw m h
    | inr m ↦ elim (Bool-cases (is_some (d.edge u v s.network))) [
      | inl e ↦ rw m (
          rw e (
            subst (λ (t : State G). IsSymmetric d t.network)
              (sym (add_edge-there v u k s (sym (h.both_ways u v) ∙ e))) h))
      | inr e ↦ rw m (rw e (back e))
    ]
  ]
    where
      back :
          is_some (d.edge u v s.network) ≡ false
          → IsSymmetric d (add_edge d run_update v u k false (with_edge u v l s)).0.network
      back e = record {
        both_ways = λ i j.
            rw (add_edge-is_some v u i j k (with_edge u v l s) (missing-added u v l s.network)) (
              rw (add_edge-is_some v u j i k (with_edge u v l s) (missing-added u v l s.network)) (
                rw (added-is_some u v i j l s.network e)
                  (rw (added-is_some u v j i l s.network e) (ground (arith, h.both_ways i j)))));
      }

  and_after-IsSymmetric :
      (o : State G × Result Updates) (k : State G → State G × Result Updates)
      → IsSymmetric d o.0.network
      → ((s : State G) → IsSymmetric d s.network → IsSymmetric d (k s).0.network)
      → IsSymmetric d (and_after d run_update o k).0.network
  and_after-IsSymmetric (s, ok us) k h f = f s h
  and_after-IsSymmetric (s, err e) k h f = h

  add_node-IsSymmetric :
      (n : Node) (r : _) (g : G) → IsSymmetric d g → IsSymmetric d (d.add_node n r g)
  add_node-IsSymmetric n r g h = record {
    both_ways = λ i j.
        rw (laws.edge-add_node n i j r g) (rw (laws.edge-add_node n j i r g) (h.both_ways i j));
  }

  pub switch_up-IsSymmetric :
      (sw : ℕ) (ports : List ℕ) (s : State G)
      → IsSymmetric d s.network
      → IsSymmetric d (switch_up d run_update sw ports s).0.network
  unfolding switch_up add_switch
  switch_up-IsSymmetric sw ports s h = elim (Bool-cases (d.has_node (switch sw) s.network)) [
    | inl e ↦ rw e h
    | inr e ↦ rw e (add_node-IsSymmetric (switch sw) _ s.network h)
  ]

  remove_node-IsSymmetric :
      (n : Node) (s : State G)
      → IsSymmetric d s.network
      → IsSymmetric d (remove_node d run_update n false s).0.network
  unfolding remove_node
  remove_node-IsSymmetric n s h = elim (Bool-cases (d.has_node n s.network)) [
    | inl e ↦ rw e (record {
      both_ways = λ i j.
          rw (laws.edge-remove_node n i j s.network)
            (rw (laws.edge-remove_node n j i s.network) (ground (arith, h.both_ways i j)));
    })
    | inr e ↦ rw e h
  ]

  pub notify-IsSymmetric :
      (s : State G) → IsSymmetric d s.network → IsSymmetric d (notify d run_update s).0.network
  notify-IsSymmetric s h = subst (IsSymmetric d) (sym (notify-network s)) h

  pub switch_down-IsSymmetric :
      (sw : ℕ) (s : State G)
      → IsSymmetric d s.network
      → IsSymmetric d (switch_down d run_update sw s).0.network
  unfolding switch_down
  switch_down-IsSymmetric sw s h =
      notify-IsSymmetric (remove_node d run_update (switch sw) false s).0
        (remove_node-IsSymmetric (switch sw) s h)

  attach-IsSymmetric :
      (sw port : ℕ) (mac : Node) (s : State G) (r : Result Bool)
      → IsSymmetric d s.network
      → IsSymmetric d (attach d run_update sw port mac s r).0.network
  attach-IsSymmetric sw port mac s (err e) h = h
  attach-IsSymmetric sw port mac s (ok true) h = h
  attach-IsSymmetric sw port mac s (ok false) h =
      and_after-IsSymmetric _ (notify d run_update)
        (link-IsSymmetric (switch sw) mac (some port) none s h) notify-IsSymmetric

  pub handle_sniff-IsSymmetric :
      (sw port : ℕ) (mac : Option Text) (s : State G)
      → IsSymmetric d s.network
      → IsSymmetric d (handle_sniff d run_update sw port mac s).0.network
  unfolding handle_sniff
  handle_sniff-IsSymmetric sw port mac s h =
      elim (Bool-cases (d.has_node (mac_node mac) s.network)) [
        | inl e ↦ rw e h
        | inr e ↦ elim (Bool-cases (is_switch (switches d s) sw)) [
          | inr f ↦ rw e (rw f h)
          | inl f ↦ rw e (
              rw f (
                attach-IsSymmetric sw port _ _ _
                  (add_node-IsSymmetric (mac_node mac) none s.network h)))
        ]
      ]

  pub handle_probe-IsSymmetric :
      (dst dst_port src src_port : ℕ) (s : State G)
      → IsSymmetric d s.network
      → IsSymmetric d (handle_probe d run_update dst dst_port src src_port s).0.network
  unfolding handle_probe
  handle_probe-IsSymmetric dst dst_port src src_port s h =
      link-IsSymmetric (switch dst) (switch src) (some dst_port) (some src_port) s h
