-- ===== src/Discovery/Paths.antt =====
-- lang/python/frenetic/examples/discovery/routing.py: the policy of a path takes packets along the path.
use mathlib.Core.List.{append-nil, append_assoc}
use frenetic.Base.{
  ℕ, true, false, ◌≡◌, refl, sym, ap, ◌∙◌, List, [], ◌∷◌, ◌++◌, map, Option, none, some, ok, arith,
  All, All-map, All-zip, ◌==◌, ==_refl, if◌then◌else◌, Bool-cases, inl, inr,
}
use frenetic.Netkat.Eval.{Packets}
use frenetic.Syntax.Ast as Ast
use frenetic.Syntax.Ast.{physical, location, Pred, Policy, Policies, policies}
use frenetic.Syntax.Build.{◌>>>◌, int_header, switch_init}
use frenetic.Syntax.Choice.{run-filter}
use frenetic.Syntax.Meaning.{holds, run, run_union}
use frenetic.Syntax.Sugar.Loops.{checked, is_port, init_int_eq, join_tests}
use frenetic.Syntax.Sugar.Tests.{switch_eq}
use frenetic.Syntax.Sugar.Sets.{set_port}
use frenetic.Discovery.Graph.{Node, switch, host, nobody, DiGraph}
use frenetic.Discovery.Routing.{hop, build_path}

-- The policy of one switch and the port out of it.
abbrev at_switch : ℕ → Pred
at_switch n = Pred.multi_pred (join_tests (Pred.test (Ast.switch n) ∷ []))

abbrev pub hop_policy : ℕ × ℕ → Policy
hop_policy (n, l) = Policy.filter (at_switch n) >>> Policy.set_port (l ∷ [])

-- The ports that a list of hops has for a switch.
unfoldable pub ports_at : ℕ → List (ℕ × ℕ) → List ℕ
ports_at s [] = []
ports_at s ((n, l) ∷ hs) = if n == s then l ∷ ports_at s hs else ports_at s hs

-- No two hops are of the same switch.
abbrev pub AreDistinct : List (ℕ × ℕ) → Type 0
AreDistinct [] = Unit
AreDistinct ((n, l) ∷ hs) = All (λ h. (h.0 == n) ≡ false) hs × AreDistinct hs

module _ {G : Type 0} (d : DiGraph G) where
  abbrev hop_from : Option (Option ℕ) → Option ℕ
  hop_from (some (some l)) = if is_port l then some l else none
  hop_from _ = none

  abbrev and_then : Option ℕ → ℕ → Option (List (ℕ × ℕ)) → Option (List (ℕ × ℕ))
  and_then (some l) n (some hs) = some ((n, l) ∷ hs)
  and_then _ n _ = none

  -- The hops of a path: each node but the last is a switch with a link to the next, from a port that has
  -- a valid number.
  unfoldable pub hops : G → Node → List Node → Option (List (ℕ × ℕ))
  hops g n [] = some []
  hops g (switch n) (next ∷ path) =
      and_then (hop_from (d.edge (switch n) next g)) n (hops g next path)
  hops g n (next ∷ path) = none

  hop-switch : (n l : ℕ) → is_port l ≡ true → hop d (switch n) l ≡ ok (hop_policy (n, l))
  unfolding hop switch_eq set_port init_int_eq checked switch_init int_header
  hop-switch n l h = rw h refl

  and_then_lem :
      (l n : ℕ) (r : Option (List (ℕ × ℕ))) (hs : List (ℕ × ℕ))
      → and_then (some l) n r ≡ some hs
      → (hs' : List (ℕ × ℕ)) × (r ≡ some hs') × (hs ≡ (n, l) ∷ hs')
  and_then_lem l n none hs h = cc
  and_then_lem l n (some hs') hs h = (hs', refl, cc)

  -- The first hop is a link with a valid port, and the other hops are those of the rest.
  first_hop :
      (e : Option (Option ℕ)) (n : ℕ) (r : Option (List (ℕ × ℕ))) (hs : List (ℕ × ℕ))
      → and_then (hop_from e) n r ≡ some hs
      → (l : ℕ) × (e ≡ some (some l))
        × (is_port l ≡ true)
        × (hs' : List (ℕ × ℕ)) × (r ≡ some hs')
        × (hs ≡ (n, l) ∷ hs')
  first_hop (some (some l)) n r hs h = elim (Bool-cases (is_port l)) [
    | inl p ↦ let (hs', f, q) = and_then_lem l n r hs (rw p at h) in (l, refl, p, hs', f, q)
    | inr p ↦ let f : and_then none n r ≡ some hs = rw p at h in cc
  ]
  first_hop (some none) n r hs h = cc
  first_hop none n r hs h = cc

  pub build_path-hops :
      (g : G) (n : Node) (path : List Node) (hs : List (ℕ × ℕ)) (acc : List Policy)
      → hops g n path ≡ some hs
      → build_path d g path n acc ≡ ok (Policy.union (policies (acc ++ map hop_policy hs)))
  unfolding hops build_path
  build_path-hops g n [] [] acc h = ap (λ l. ok (Policy.union (policies l))) (sym (append-nil acc))
  build_path-hops g n [] (x ∷ hs) acc h = cc
  build_path-hops g (switch n) (next ∷ path) hs acc h =
      let (l, e, p, hs', r, q) = first_hop (d.edge (switch n) next g) n (hops g next path) hs h in
      rw e (
        rw (hop-switch n l p) (
          build_path-hops g next path hs' (acc ++ hop_policy (n, l) ∷ []) r
          ∙ rw q (
              ap (λ ps. ok (Policy.union (policies ps)))
                (append_assoc acc (hop_policy (n, l) ∷ []) (map hop_policy hs')))))
  build_path-hops g (host mac) (next ∷ path) hs acc h = cc
  build_path-hops g nobody (next ∷ path) hs acc h = cc

-- The packet is at the switch.
abbrev pub IsAt : {P : Type 0} → Packets P → ℕ → P → Type 0
IsAt m s pkt = (k : ℕ) → m.holds (Ast.switch k) pkt ≡ (k == s)

module _ {P : Type 0} (m : Packets P) (s : ℕ) (pkt : P) (at : IsAt m s pkt) where
  pub run_union-hops :
      (hs : List (ℕ × ℕ))
      → run_union m pkt (policies (map hop_policy hs))
        ≡ map (λ l. m.assign (location (physical l)) pkt) (ports_at s hs)
  unfolding run run_union ports_at holds
  run_union-hops [] = refl
  run_union-hops ((n, l) ∷ hs) = rw (run-filter m pkt (at_switch n) (Policy.set_port (l ∷ []))) (
      rw (at n) (elim (Bool-cases (n == s)) [
        | inl e ↦ rw e (rw (run_union-hops hs) refl)
        | inr e ↦ rw e (run_union-hops hs)
      ]))

none_at : (s : ℕ) (hs : List (ℕ × ℕ)) → All (λ h. (h.0 == s) ≡ false) hs → ports_at s hs ≡ []
unfolding ports_at
none_at s [] a = refl
none_at s ((n, l) ∷ hs) (a, b) = rw a (none_at s hs b)

later :
    (n l : ℕ) (hs : List (ℕ × ℕ)) (h : ℕ × ℕ)
    → (h.0 == n) ≡ false
    → ports_at h.0 hs ≡ h.1 ∷ []
    → ports_at h.0 ((n, l) ∷ hs) ≡ h.1 ∷ []
unfolding ports_at
later n l hs h a b = let e : (n == h.0) ≡ false = ground arith in rw e b

one_at : (hs : List (ℕ × ℕ)) → AreDistinct hs → All (λ h. ports_at h.0 hs ≡ h.1 ∷ []) hs
unfolding ports_at
one_at [] t = tt
one_at ((n, l) ∷ hs) (a, t) = (
  rw (==_refl n) (ap (λ ls. l ∷ ls) (none_at n hs a)),
  All-zip _ _ _ (later n l hs) hs a (one_at hs t),
)

module _ {P : Type 0} (m : Packets P) {G : Type 0} (d : DiGraph G) where
  -- For a path from a switch on any graph, with a valid port on each link and no switch twice:
  -- build_path returns a policy that sends a packet at each switch of the path, but for its last node,
  -- out of the port of the link to the next node and no other, and drops a packet at any other switch.
  pub run-build_path :
      (g : G) (n : Node) (path : List Node) (hs : List (ℕ × ℕ))
      → hops d g n path ≡ some hs
      → AreDistinct hs
      → (pol : Policy) × (build_path d g path n [] ≡ ok pol)
        × All
            (λ h.
              (pkt : P)
              → IsAt m h.0 pkt
              → run m pkt pol ≡ m.assign (location (physical h.1)) pkt ∷ [])
            hs
        × ((s : ℕ) (pkt : P) → IsAt m s pkt → All (λ h. (h.0 == s) ≡ false) hs → run m pkt pol ≡ [])
  unfolding run
  run-build_path g n path hs h t = (
    _,
    build_path-hops d g n path hs [] h,
    All-map _ _ (λ k e pkt at. run_union-hops m k.0 pkt at hs ∙ rw e refl) hs (one_at hs t),
    λ s pkt at a. run_union-hops m s pkt at hs ∙ rw (none_at s hs a) refl,
  )
