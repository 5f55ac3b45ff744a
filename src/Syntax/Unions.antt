-- ===== src/Syntax/Unions.antt =====
-- lang/python/frenetic/syntax.py: a Union that an application makes by a loop over numbers.
use mathlib.Core.List.{flat_map, append-nil}
use frenetic.Base.{
  ℕ, Bool, true, false, ◌≡◌, refl, ap, ◌∙◌, List, [], ◌∷◌, ◌++◌, map, any, all, Result, ok,
  traverse, arith, ◌==◌, if◌then◌else◌, Bool-cases, inl, inr,
}
use frenetic.Netkat.Eval.{Packets}
use frenetic.Syntax.Ast.{Policy, policies}
use frenetic.Syntax.Meaning.{run, run_union}

-- No element twice, by a test of equality.
abbrev pub AreApart : {A : Type 0} → (A → A → Bool) → List A → Type 0
AreApart eq [] = Unit
AreApart eq (n ∷ ns) = (any (λ k. eq k n) ns ≡ false) × AreApart eq ns

abbrev pub AreUnique : List ℕ → Type 0
AreUnique = AreApart (λ k n. k == n)

pub run_union-map :
    {P A : Type 0} (m : Packets P) (pkt : P) (f : A → Policy) (xs : List A)
    → run_union m pkt (policies (map f xs)) ≡ flat_map (λ x. run m pkt (f x)) xs
unfolding run flat_map
run_union-map m pkt f [] = refl
run_union-map m pkt f (x ∷ xs) = ap (λ l. run m pkt (f x) ++ l) (run_union-map m pkt f xs)

module _ {P A : Type 0} (eq : A → A → Bool) (sound : (a b : A) → eq a b ≡ true → a ≡ b)
    (out : A → List P) (p : A) where
  abbrev pub only_by : A → List P
  only_by q = if eq q p then out q else []

  flat_map-absent : (ns : List A) → any (λ q. eq q p) ns ≡ false → flat_map only_by ns ≡ []
  unfolding flat_map
  flat_map-absent [] h = refl
  flat_map-absent (n ∷ ns) h = elim (Bool-cases (eq n p)) [
    | inl e ↦ ground arith
    | inr e ↦ rw e (flat_map-absent ns (rw e at h))
  ]

  -- A loop whose body yields something for one key only.
  pub flat_map-only_by :
      (ns : List A)
      → AreApart eq ns
      → flat_map only_by ns ≡ (if any (λ q. eq q p) ns then out p else [])
  unfolding flat_map
  flat_map-only_by [] u = refl
  flat_map-only_by (n ∷ ns) (a, u) = elim (Bool-cases (eq n p)) [
    | inl e ↦
        let q : n ≡ p = sound n p e in
        rw e (ap (λ l. out n ++ l) (flat_map-absent ns (rw q at a)) ∙ append-nil (out n) ∙ ap out q)
    | inr e ↦ rw e (flat_map-only_by ns u)
  ]

==→eq : (a b : ℕ) → (a == b) ≡ true → a ≡ b
==→eq a b h = ground arith

abbrev pub only : {P : Type 0} → (ℕ → List P) → ℕ → ℕ → List P
only out p q = if q == p then out q else []

pub flat_map-only :
    {P : Type 0} (out : ℕ → List P) (p : ℕ) (ns : List ℕ)
    → AreUnique ns
    → flat_map (only out p) ns ≡ (if any (λ q. q == p) ns then out p else [])
flat_map-only = flat_map-only_by (λ k n. k == n) ==→eq

-- A loop that appends a policy for each number.
pub traverse-all :
    {B : Type 0} (f : ℕ → Result B) (g : ℕ → B) (valid : ℕ → Bool)
    → ((n : ℕ) → valid n ≡ true → f n ≡ ok (g n))
    → (ns : List ℕ) → all valid ns ≡ true
    → traverse f ns ≡ ok (map g ns)
traverse-all f g valid h [] a = refl
traverse-all f g valid h (n ∷ ns) a = elim (Bool-cases (valid n)) [
  | inl e ↦ rw (h n e) (rw (traverse-all f g valid h ns (rw e at a)) refl)
  | inr e ↦ let b : false ≡ true = rw e at a in cc
]
