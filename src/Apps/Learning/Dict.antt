-- ===== src/Apps/Learning/Dict.antt =====
-- Dictionaries that are keyed by switches, in the order of insertion, for
-- lang/python/frenetic/examples/learning.py.
use frenetic.Base.{ℕ, ◌≡◌, refl, List, [], ◌∷◌, Option, none, some, arith, ◌==◌, if◌then◌else◌}

abbrev pub Dict {ℓ} : Type ℓ → Type ℓ
Dict V = List (ℕ × V)

unfoldable pub get {ℓ} : {V : Type ℓ} → ℕ → Dict V → Option V
get k [] = none
get k ((j, v) ∷ d) = if j == k then some v else get k d

-- `d[k] = v`
unfoldable pub put {ℓ} : {V : Type ℓ} → ℕ → V → Dict V → Dict V
put k v [] = (k, v) ∷ []
put k v ((j, w) ∷ d) = if j == k then (j, v) ∷ d else (j, w) ∷ put k v d

-- `del d[k]`, of a key that is there
unfoldable pub delete {ℓ} : {V : Type ℓ} → ℕ → Dict V → Dict V
delete k [] = []
delete k ((j, w) ∷ d) = if j == k then delete k d else (j, w) ∷ delete k d

pub get-put {ℓ} :
    {V : Type ℓ} (k j : ℕ) (v : V) (d : Dict V)
    → get k (put j v d) ≡ (if j == k then some v else get k d)
unfolding get put
get-put k j v [] = refl
get-put k j v ((i, w) ∷ d) = grind (arith, get-put k j v d)

pub get-delete {ℓ} :
    {V : Type ℓ} (k j : ℕ) (d : Dict V) → get k (delete j d) ≡ (if j == k then none else get k d)
unfolding get delete
get-delete k j [] = ground arith
get-delete k j ((i, w) ∷ d) = grind (arith, get-delete k j d)
