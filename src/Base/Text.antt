-- ===== src/Base/Text.antt =====
-- Text as the list of its code points, with the operations of Python's `str` that the code uses.
use Prim.Native.Nat.{ℕ}
use Prim.Native.Char.{code}
use Prim.Native.String.{String}
use mathlib.Core.Path.{◌≡◌, refl}
use mathlib.Core.Bool.{Bool, true, false, ◌&&◌}
use mathlib.Core.List.{List, [], ◌∷◌, ◌++◌}
use native.Mathlib.Omega.{arith}
use frenetic.Base.Tests.{◌==◌, if◌then◌else◌}
use frenetic.Base.Lists.{All}

abbrev pub Text : Type 0
Text = List ℕ

abbrev pub codes : String → Text
codes String.[] = []
codes (String.◌∷◌ c s) = code c ∷ codes s

unfoldable pub text_eq : Text → Text → Bool
text_eq [] [] = true
text_eq [] (d ∷ t) = false
text_eq (c ∷ s) [] = false
text_eq (c ∷ s) (d ∷ t) = c == d && text_eq s t

pub text_eq_refl : (s : Text) → text_eq s s ≡ true
unfolding text_eq
text_eq_refl [] = refl
text_eq_refl (c ∷ s) = ground (arith, text_eq_refl s)

pub text_eq→eq : (s t : Text) → text_eq s t ≡ true → s ≡ t
unfolding text_eq
text_eq→eq [] [] h = refl
text_eq→eq [] (d ∷ t) h = cc
text_eq→eq (c ∷ s) [] h = cc
text_eq→eq (c ∷ s) (d ∷ t) h = ground (arith, text_eq→eq s t)

-- `s.split(c)` for a one-character separator.
abbrev cons_head : ℕ → List Text → List Text
cons_head c [] = (c ∷ []) ∷ []
cons_head c (p ∷ ps) = (c ∷ p) ∷ ps

unfoldable pub split : ℕ → Text → List Text
split sep [] = [] ∷ []
split sep (c ∷ s) = let rest = split sep s in if c == sep then [] ∷ rest else cons_head c rest

-- No character of the text is the separator.
abbrev pub Avoids : ℕ → Text → Type 0
Avoids sep s = All (λ c. (c == sep) ≡ false) s

module _ (sep : ℕ) where
  pub split-Avoids : (s : Text) → Avoids sep s → split sep s ≡ s ∷ []
  unfolding split
  split-Avoids [] h = refl
  split-Avoids (c ∷ s) h = rw (h.0, split-Avoids s h.1)

  pub split-sep : (s t : Text) → Avoids sep s → split sep (s ++ sep ∷ t) ≡ s ∷ split sep t
  unfolding split
  split-sep [] t h = ground arith
  split-sep (c ∷ s) t h = rw (h.0, split-sep s t h.1)
