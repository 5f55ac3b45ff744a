-- ===== src/Base/Decimal.antt =====
-- `str(n)` and `int(s)` of Python 2 for decimal numbers, and their round trip.
pub mod Laws
use frenetic.Base.Tests.{ltb, leb, ◌==◌, if◌then◌else◌}
use frenetic.Base.Int.{ℤ, pos, neg_ℕ}
use frenetic.Base.Text.{Text}
use Prim.Native.Nat.{ℕ, zero, suc, ◌+◌, ◌-◌, ◌*◌, ◌/◌, ◌%◌, ◌<◌, ◌≤◌}
use mathlib.Core.Path.{◌≡◌, refl}
use mathlib.Core.Bool.{Bool, true, false, ◌&&◌, ◌||◌}
use mathlib.Core.Option.{Option, none, some}
use mathlib.Core.Option
use mathlib.Core.List.{List, [], ◌∷◌, ◌++◌}
use native.Mathlib.Omega.{arith}

-- The digits of `n`; the fuel is the number itself and one more, which is more than its digits.
show_fuel : ℕ → ℕ → Text
show_fuel zero n = []
show_fuel (suc f) n =
    let front = show_fuel f (n / 10) in
    if ltb n 10 then (48 + n) ∷ [] else front ++ (48 + n % 10) ∷ []

unfoldable pub show : ℕ → Text
unfolding show_fuel
show n = show_fuel (n + 1) n

unfoldable pub is_digit : ℕ → Bool
is_digit c = leb 48 c && leb c 57

is_space : ℕ → Bool
is_space c = c == 32 || (leb 9 c && leb c 13)

all_space : Text → Bool
all_space [] = true
all_space (c ∷ s) = is_space c && all_space s

read_digits : ℕ → Text → Option ℕ
read_digits n [] = some n
read_digits n (c ∷ s) =
    let rest = read_digits (n * 10 + (c - 48)) s in
    if is_digit c then rest else if all_space (c ∷ s) then some n else none

unsigned : Text → Option ℕ
unsigned [] = none
unsigned (c ∷ s) = if is_digit c then read_digits 0 (c ∷ s) else none

signed : Text → Option ℤ
signed [] = none
signed (c ∷ s) =
    if c == b'-'
    then Option.map neg_ℕ (unsigned s)
    else if c == b'+'
    then Option.map pos (unsigned s)
    else Option.map pos (unsigned (c ∷ s))

strip_left : Text → Text
strip_left [] = []
strip_left (c ∷ s) = let rest = strip_left s in if is_space c then rest else c ∷ s

-- `none` stands for a ValueError.
unfoldable pub parse_int : Text → Option ℤ
unfolding strip_left signed unsigned read_digits all_space is_space is_digit
parse_int s = signed (strip_left s)
