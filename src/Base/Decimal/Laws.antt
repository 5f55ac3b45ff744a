-- ===== src/Base/Decimal/Laws.antt =====
-- `int(str(n))` is `n`.
use frenetic.Base.Tests.{ltb, ltb→lt, Bool-cases}
use frenetic.Base.Lists.{All, All-append}
use frenetic.Base.Int.{pos}
use frenetic.Base.Text.{Text, Avoids}
use frenetic.Base.Decimal.{show_fuel, show, is_digit, read_digits, parse_int}
use Prim.Native.Nat.{ℕ, zero, suc, ◌+◌, ◌-◌, ◌*◌, ◌/◌, ◌%◌, ◌<◌, ◌≤◌}
use mathlib.Core.Path.{◌≡◌, refl, ap, ◌∙◌}
use mathlib.Core.Logic.{inl, inr, ◌≢◌}
use mathlib.Core.Option.{some}
use mathlib.Core.List.{[], ◌∷◌, ◌++◌}
use native.Mathlib.Omega.{arith}

-- A decimal digit.
abbrev pub IsDigit : ℕ → Type 0
IsDigit c = (48 ≤ c) × (c ≤ 57)

value : ℕ → Text → ℕ
value n [] = n
value n (c ∷ s) = value (n * 10 + (c - 48)) s

value-append : (n : ℕ) (s t : Text) → value n (s ++ t) ≡ value (value n s) t
unfolding value
value-append n [] t = refl
value-append n (c ∷ s) t = value-append (n * 10 + (c - 48)) s t

show_fuel-IsDigit : (f n : ℕ) → All IsDigit (show_fuel f n)
unfolding show_fuel
show_fuel-IsDigit zero n = tt
show_fuel-IsDigit (suc f) n = elim (Bool-cases (ltb n 10)) [
  | inl small ↦ rw small ((omega arith, omega (arith, ltb→lt n 10 small)), tt)
  | inr big ↦ rw big (
      All-append IsDigit (show_fuel f (n / 10)) _ (show_fuel-IsDigit f (n / 10))
        ((omega arith, omega arith), tt))
]

pub show-IsDigit : (n : ℕ) → All IsDigit (show n)
unfolding show
show-IsDigit n = show_fuel-IsDigit (n + 1) n

value-show_fuel : (f n : ℕ) → n < f → value 0 (show_fuel f n) ≡ n
unfolding value show_fuel
value-show_fuel zero n h = absurd (omega arith)
value-show_fuel (suc f) n h = elim (Bool-cases (ltb n 10)) [
  | inl small ↦ rw small (omega arith)
  | inr big ↦ rw big (
      rw (value-append 0 (show_fuel f (n / 10)) ((48 + n % 10) ∷ []))
        (rw (value-show_fuel f (n / 10) (ground arith)) (omega arith)))
]

read_digits-value : (n : ℕ) (s : Text) → All IsDigit s → read_digits n s ≡ some (value n s)
unfolding read_digits value is_digit
read_digits-value n [] h = refl
read_digits-value n (c ∷ s) h = ground (arith, read_digits-value (n * 10 + (c - 48)) s)

append-ne-nil : (s : Text) (c : ℕ) → s ++ c ∷ [] ≢ []
append-ne-nil [] c h = cc
append-ne-nil (d ∷ s) c h = cc

show-ne-nil : (n : ℕ) → show n ≢ []
unfolding show show_fuel
show-ne-nil n h = go (n + 1) refl
  where
    go : (k : ℕ) → n + 1 ≡ k → ⊥
    go zero e = absurd (omega arith)
    go (suc k) e = ground (arith, append-ne-nil (show_fuel k (n / 10)) (48 + n % 10))

parse_int-digits : (s : Text) → All IsDigit s → s ≢ [] → parse_int s ≡ some (pos (value 0 s))
unfolding parse_int
parse_int-digits [] h e = absurd (e refl)
parse_int-digits (c ∷ s) h e = ground (arith, read_digits-value 0 (c ∷ s))

-- Reading back what is printed yields the number.
pub parse_int-show : (n : ℕ) → parse_int (show n) ≡ some (pos n)
parse_int-show n =
    parse_int-digits (show n) (show-IsDigit n) (show-ne-nil n)
    ∙ ap (λ k. some (pos k)) (unfold show in value-show_fuel (n + 1) n (omega arith))

Avoids-IsDigit : (sep : ℕ) (s : Text) → (sep < 48) → All IsDigit s → Avoids sep s
Avoids-IsDigit sep [] h d = tt
Avoids-IsDigit sep (c ∷ s) h d = (ground arith, Avoids-IsDigit sep s h d.1)

-- A separator below the digits, such as a dot or a slash, is not in a printed number.
pub show-Avoids : (sep n : ℕ) → sep < 48 → Avoids sep (show n)
show-Avoids sep n h = Avoids-IsDigit sep (show n) h (show-IsDigit n)
