-- ===== src/Discovery/Delivery.antt =====
-- lang/python/frenetic/examples/discovery/routing.py: the policy of Routing takes each packet along the
-- path from its source to its destination.
use mathlib.Core.List.{flatten, flat_map, append-nil, append_assoc}
use mathlib.Core.Path.{fun_ext}
use frenetic.Base.{
  ℕ, Bool, true, false, not, ◌&&◌, ◌≡◌, refl, sym, ap, ◌∙◌, List, [], ◌∷◌, ◌++◌, map, Option, none,
  some, ok, ◌>>=◌, traverse, traverse-ok, any, if◌then◌else◌, Bool-cases, inl, inr, arith,
}
use frenetic.Base.Text.{Text, text_eq, text_eq→eq}
use frenetic.Netkat.Eval.{Packets}
use frenetic.Syntax.Ast as Ast
use frenetic.Syntax.Ast.{physical, location, Pred, Policy, policies}
use frenetic.Syntax.Build.{◌&◌, ◌>>>◌}
use frenetic.Syntax.Choice.{run-filter}
use frenetic.Syntax.Meaning.{holds, run, run_union}
use frenetic.Syntax.Unions.{AreApart, only_by, flat_map-only_by}
use frenetic.Syntax.Sugar.Loops.{init_str_eq, init_int_eq, checked}
use frenetic.Syntax.Sugar.Tests.{eth_src_eq, eth_dst_eq, eth_type_eq}
use frenetic.Discovery.Graph.{Node, host, DiGraph}
use frenetic.Discovery.State.{State, hosts}
use frenetic.Discovery.Routing.{path_policy, path_of, pair_policy, routing_policy}
use frenetic.Discovery.Paths.{
  hop_policy, ports_at, AreDistinct, hops, build_path-hops, IsAt, run_union-hops,
}

-- The hops of a path from a host, if there is one: it has a first switch, its links have valid ports, and
-- no switch is on it twice.
abbrev pub IsWay : {G : Type 0} → DiGraph G → G → Option (List Node) → List (ℕ × ℕ) → Type 0
IsWay d g none hs = hs ≡ []
IsWay d g (some (src ∷ first ∷ rest)) hs = (hops d g first rest ≡ some hs) × AreDistinct hs
IsWay d g _ hs = ⊥

-- The packet's addresses.
abbrev pub IsFrom : {P : Type 0} → Packets P → Text → Text → P → Type 0
IsFrom m src dst pkt =
    ((a : Text) → m.holds (Ast.eth_src a) pkt ≡ text_eq a src)
    × ((a : Text) → m.holds (Ast.eth_dst a) pkt ≡ text_eq a dst)

-- A path's policy: the test of the two addresses, before the hops.
abbrev between : Text → Text → Pred
between a b =
    Pred.multi_pred (Pred.test (Ast.eth_src a)) & Pred.multi_pred (Pred.test (Ast.eth_dst b))

abbrev pair_list : Option (List Node) → Text → Text → List (ℕ × ℕ) → List Policy
pair_list none a b hs = []
pair_list (some path) a b hs =
    (Policy.filter (between a b) >>> Policy.union (policies (map hop_policy hs))) ∷ []

abbrev ip : Pred
ip = Pred.multi_pred (Pred.test (Ast.eth_type 0x800))

-- Two of the hosts, that are not the same.
abbrev pub is_pair : List Text → Text → Text → Bool
is_pair ts src dst =
    any (λ a. text_eq a src) ts && any (λ b. text_eq b dst) ts && not (text_eq src dst)

gather :
    {A : Type 0} (i a b e : Bool) (out : List A)
    → (if i then (if a then (if b then (if e then [] else out) else []) else []) else [])
      ≡ (if i && (a && b && not e) then out else [])
gather false a b e out = refl
gather true false b e out = refl
gather true true false e out = refl
gather true true true true out = refl
gather true true true false out = refl

nested :
    {A : Type 0} (a b : Bool) (out : List A)
    → (if a && b then out else []) ≡ (if a then (if b then out else []) else [])
nested true b out = refl
nested false b out = refl

nothing : {A : Type 0} (x y : Bool) → ◌≡◌ {A = List A} [] (if x then (if y then [] else []) else [])
nothing true true = refl
nothing true false = refl
nothing false y = refl

flat_map-nil : {A B : Type 0} (xs : List A) → flat_map {A = A} {B = B} (λ x. []) xs ≡ []
unfolding flat_map
flat_map-nil [] = refl
flat_map-nil (x ∷ xs) = flat_map-nil xs

module _ {G : Type 0} (d : DiGraph G) (g : G) (shortest_path : G → Node → Node → Option (List Node))
    (ways : Text → Text → List (ℕ × ℕ))
    (are_ways : (a b : Text)
      → text_eq a b ≡ false
      → IsWay d g (shortest_path g (host a) (host b)) (ways a b)) where
  abbrev pols : Text → Text → List Policy
  pols a b =
      if text_eq a b then [] else pair_list (shortest_path g (host a) (host b)) a b (ways a b)

  path_of-list :
      (a b : Text) (o : Option (List Node)) (hs : List (ℕ × ℕ))
      → IsWay d g o hs
      → path_of d shortest_path g a b o ≡ ok (pair_list o a b hs)
  unfolding path_policy eth_src_eq eth_dst_eq init_str_eq
  path_of-list a b none hs w = refl
  path_of-list a b (some (src ∷ first ∷ rest)) hs w =
      rw (build_path-hops d g first rest hs [] w.0) refl
  path_of-list a b (some (src ∷ [])) hs w = absurd w
  path_of-list a b (some []) hs w = absurd w

  pair_policy-pols : (a b : Text) → pair_policy d shortest_path g a b ≡ ok (pols a b)
  unfolding pair_policy
  pair_policy-pols a b = elim (Bool-cases (text_eq a b)) [
    | inl e ↦ rw e refl
    | inr e ↦
        rw e (path_of-list a b (shortest_path g (host a) (host b)) (ways a b) (are_ways a b e))
  ]

  -- The paths of all pairs of hosts, as the two loops collect them.
  abbrev all_pols : List Text → List Policy
  all_pols ts = flatten (map (λ a. flatten (map (pols a) ts)) ts)

  module _ {P : Type 0} (m : Packets P) where
    run_union-append :
        (pkt : P) (ps qs : List Policy)
        → run_union m pkt (policies (ps ++ qs))
          ≡ run_union m pkt (policies ps) ++ run_union m pkt (policies qs)
    unfolding run
    run_union-append pkt [] qs = refl
    run_union-append pkt (p ∷ ps) qs =
        rw (run_union-append pkt ps qs) (sym (append_assoc (run m pkt p) _ _))

    run_union-flatten :
        {A : Type 0} (pkt : P) (f : A → List Policy) (xs : List A)
        → run_union m pkt (policies (flatten (map f xs)))
          ≡ flat_map (λ x. run_union m pkt (policies (f x))) xs
    unfolding flatten flat_map run
    run_union-flatten pkt f [] = refl
    run_union-flatten pkt f (x ∷ xs) =
        run_union-append pkt (f x) (flatten (map f xs))
        ∙ ap (λ l. run_union m pkt (policies (f x)) ++ l) (run_union-flatten pkt f xs)

    module _ (k : ℕ) (src dst : Text) (pkt : P) (at : IsAt m k pkt)
        (from : IsFrom m src dst pkt) where
      -- What a packet becomes at the switch on the way between two hosts.
      abbrev out : Text → Text → List P
      out a b = map (λ l. m.assign (location (physical l)) pkt) (ports_at k (ways a b))

      abbrev between_out : Text → Text → List P
      between_out a b = if text_eq a src then (if text_eq b dst then out a b else []) else []

      holds-between : (a b : Text) → holds m pkt (between a b) ≡ (text_eq a src && text_eq b dst)
      unfolding holds
      holds-between a b = rw (from.0 a) (rw (from.1 b) (ground arith))

      run-pair_list :
          (a b : Text) (o : Option (List Node))
          → IsWay d g o (ways a b)
          → run_union m pkt (policies (pair_list o a b (ways a b))) ≡ between_out a b
      unfolding run ports_at
      run-pair_list a b none w = rw w (nothing (text_eq a src) (text_eq b dst))
      run-pair_list a b (some path) w =
          append-nil _
          ∙ run-filter m pkt (between a b) (Policy.union (policies (map hop_policy (ways a b))))
          ∙ rw (holds-between a b) (
              rw (run_union-hops m k pkt at (ways a b))
                (nested (text_eq a src) (text_eq b dst) (out a b)))

      -- The pair's packets, where the two hosts differ.
      abbrev apart : Text → Text → List P
      apart a b = if text_eq a b then [] else out a b

      run-pols :
          (a b : Text)
          → run_union m pkt (policies (pols a b))
            ≡ (if text_eq a src then only_by text_eq text_eq→eq (apart a) dst b else [])
      unfolding run
      run-pols a b = elim (Bool-cases (text_eq a b)) [
        | inl e ↦ rw e (nothing (text_eq a src) (text_eq b dst))
        | inr e ↦ rw e (run-pair_list a b (shortest_path g (host a) (host b)) (are_ways a b e))
      ]

      run-destinations :
          (ts : List Text)
          → AreApart text_eq ts
          → (a : Text)
          → run_union m pkt (policies (flatten (map (pols a) ts)))
            ≡ only_by text_eq text_eq→eq
                (λ t. if any (λ b. text_eq b dst) ts then apart t dst else [])
                src
                a
      run-destinations ts u a =
          run_union-flatten pkt (pols a) ts
          ∙ ap (λ f. flat_map f ts) (fun_ext (run-pols a))
          ∙ elim (Bool-cases (text_eq a src)) [
            | inl e ↦ rw e (flat_map-only_by text_eq text_eq→eq (apart a) dst ts u)
            | inr e ↦ rw e (flat_map-nil ts)
          ]

      run-all_pols :
          (ts : List Text)
          → AreApart text_eq ts
          → run_union m pkt (policies (all_pols ts)) ≡ (
              if any (λ a. text_eq a src) ts
              then (if any (λ b. text_eq b dst) ts then apart src dst else [])
              else [])
      run-all_pols ts u =
          run_union-flatten pkt (λ a. flatten (map (pols a) ts)) ts
          ∙ ap (λ f. flat_map f ts) (fun_ext (run-destinations ts u))
          ∙ flat_map-only_by text_eq text_eq→eq
              (λ t. if any (λ b. text_eq b dst) ts then apart t dst else []) src ts u

      run-whole :
          (ts : List Text)
          → AreApart text_eq ts
          → run m pkt (Policy.filter ip >>> Policy.union (policies (all_pols ts)))
            ≡ (if m.holds (Ast.eth_type 0x800) pkt && is_pair ts src dst then out src dst else [])
      unfolding run holds
      run-whole ts u =
          run-filter m pkt ip (Policy.union (policies (all_pols ts)))
          ∙ rw (run-all_pols ts u) (
              gather (m.holds (Ast.eth_type 0x800) pkt) (any (λ a. text_eq a src) ts)
                (any (λ b. text_eq b dst) ts) (text_eq src dst) (out src dst))

  traverse-pols :
      (ts : List Text)
      → traverse
          (λ a. traverse (λ b. pair_policy d shortest_path g a b) ts >>= λ ps. ok (flatten ps))
          ts
        ≡ ok (map (λ a. flatten (map (pols a) ts)) ts)
  traverse-pols ts =
      traverse-ok _ (λ a. flatten (map (pols a) ts)) ts
        (λ a. rw (traverse-ok _ (pols a) ts (pair_policy-pols a)) refl)

-- On any graph, where shortest_path yields for two hosts no path or one that passes no switch twice and
-- whose links have valid ports, and the hosts are listed once each: Routing.policy is made. It sends an IP
-- packet from one host to another, at a switch of their path, out of the port of the path's link, and
-- drops it at any other switch; it drops what is no IP packet, or is not from one host to another.
pub run-routing_policy :
    {P : Type 0} (m : Packets P) {G : Type 0} (d : DiGraph G) (s : State G)
    (shortest_path : G → Node → Node → Option (List Node)) (ways : Text → Text → List (ℕ × ℕ))
    → ((a b : Text)
        → text_eq a b ≡ false
        → IsWay d s.network (shortest_path s.network (host a) (host b)) (ways a b))
    → AreApart text_eq (hosts d s)
    → (pol : Policy) × (routing_policy d shortest_path s ≡ ok pol)
      × ((k : ℕ) (src dst : Text) (pkt : P)
          → IsAt m k pkt
          → IsFrom m src dst pkt
          → run m pkt pol ≡ (
              if m.holds (Ast.eth_type 0x800) pkt && is_pair (hosts d s) src dst
              then map (λ l. m.assign (location (physical l)) pkt) (ports_at k (ways src dst))
              else []))
unfolding routing_policy eth_type_eq init_int_eq checked
run-routing_policy m d s shortest_path ways are_ways u = (
  Policy.filter ip
      >>> Policy.union (policies (all_pols d s.network shortest_path ways are_ways (hosts d s))),
  rw (traverse-pols d s.network shortest_path ways are_ways (hosts d s)) refl,
  λ k src dst pkt at from.
      run-whole d s.network shortest_path ways are_ways m k src dst pkt at from (hosts d s) u,
)
