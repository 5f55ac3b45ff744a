-- ===== src/Topologies/Loops.antt =====
-- topology/scripts: the loops of the scripts, which add edges and step offsets on.
use frenetic.Base.{
  ℕ, zero, suc, ◌+◌, ◌*◌, ◌<◌, ◌≤◌, ◌≡◌, refl, ap, ◌∙◌, List, [], ◌∷◌, ◌++◌, map, Result, ok, ◌>>=◌,
  or_raise, index_error, get_elem?, arith,
}
use native.Mathlib.Nat.{mul-le-mul_right, suc-mul, zero-add}
use frenetic.Topologies.Graph.{Edge}

-- range(lo, lo + n)
abbrev pub range : ℕ → ℕ → List ℕ
range lo zero = []
range lo (suc n) = lo ∷ range (lo + 1) n

-- `xs[i]`, for an `i` that is not negative
abbrev pub elem {ℓ} : {A : Type ℓ} → List A → ℕ → Result A
elem xs i = or_raise index_error (get_elem? xs i)

module _ {S A : Type 0} where
  -- `for x in xs: body`, with what the body leaves and the edges that it adds
  abbrev pub for_each : (A → S → Result (S × List Edge)) → List A → S → Result (S × List Edge)
  for_each body [] s = ok (s, [])
  for_each body (x ∷ xs) s = body x s >>= λ r. for_each body xs r.0 >>= λ q. ok (q.0, r.1 ++ q.1)

-- f 0 ++ ... ++ f (n - 1)
abbrev pub upto : ℕ → (ℕ → List Edge) → List Edge
upto zero f = []
upto (suc n) f = f 0 ++ upto n (λ i. f (suc i))

shift : (lo i : ℕ) → (lo + 1) + i ≡ lo + suc i
shift lo i = omega arith

-- A loop whose every round does what is expected of it does all of that.
pub for_each-range :
    {S : Type 0} (body : ℕ → S → Result (S × List Edge)) (lo n : ℕ) (off : ℕ → S)
    (f : ℕ → List Edge)
    → ((i : ℕ) → i < n → body (lo + i) (off i) ≡ ok (off (suc i), f i))
    → for_each body (range lo n) (off 0) ≡ ok (off n, upto n f)
for_each-range body lo zero off f h = refl
for_each-range body lo (suc n) off f h =
    let first : body lo (off 0) ≡ ok (off 1, f 0) =
      ap (λ j. body j (off 0)) (omega arith) ∙ h 0 (omega arith) in
    rw first (
      rw
        (for_each-range body (lo + 1) n (λ i. off (suc i)) (λ i. f (suc i))
          (λ i lt. ap (λ j. body j (off (suc i))) (shift lo i) ∙ h (suc i) (omega (arith, lt))))
        refl)

pub for_each-steps :
    {S : Type 0} (body : ℕ → S → Result (S × List Edge)) (lo n : ℕ) (off : ℕ → S)
    (f : ℕ → List Edge) {s t : S}
    → s ≡ off 0
    → off n ≡ t
    → ((i : ℕ) → i < n → body (lo + i) (off i) ≡ ok (off (suc i), f i))
    → for_each body (range lo n) s ≡ ok (t, upto n f)
for_each-steps body lo n off f p q h =
    ap (for_each body (range lo n)) p
    ∙ for_each-range body lo n off f h
    ∙ ap (λ t. ok (t, upto n f)) q

pub for_each-upto :
    {S : Type 0} (body : ℕ → S → Result (S × List Edge)) (n : ℕ) (off : ℕ → S) (f : ℕ → List Edge)
    {s t : S}
    → s ≡ off 0
    → off n ≡ t
    → ((i : ℕ) → i < n → body i (off i) ≡ ok (off (suc i), f i))
    → for_each body (range 0 n) s ≡ ok (t, upto n f)
for_each-upto body n off f p q h =
    for_each-steps body 0 n off f p q (λ i lt. ap (λ j. body j (off i)) (zero-add i) ∙ h i lt)

pub elem-map-range :
    {A : Type 0} (g : ℕ → A) (lo n i : ℕ) → i < n → elem (map g (range lo n)) i ≡ ok (g (lo + i))
elem-map-range g lo zero i lt = absurd (omega arith)
elem-map-range g lo (suc n) zero lt = ap (λ j. ok (g j)) (omega arith)
elem-map-range g lo (suc n) (suc i) lt =
    elem-map-range g (lo + 1) n i (omega arith) ∙ ap (λ j. ok (g j)) (shift lo i)

-- A place in a table.
pub below-product : (a b c n : ℕ) → a < n → c < b → a * b + c < n * b
below-product a b c n h k =
    let m : suc a * b ≤ n * b = mul-le-mul_right b (omega (arith, h)) in
    let e = suc-mul a b in omega (arith, m, e, k)
