-- ===== src/Netkat/Address.antt =====
-- lib/Frenetic_Packet.ml: mac_of_string and ip_of_string, with what they use of OCaml's library. `none`
-- stands for an exception; a number of w bits is the one without a sign.
use Prim.Native.Nat.{bit_or}
use frenetic.Base.{
  ℕ, ◌+◌, ◌-◌, ◌*◌, ◌^◌, ◌%◌, Bool, true, false, ◌&&◌, ◌||◌, List, [], ◌∷◌, ◌++◌, Option, none,
  some, ltb, leb, ◌==◌, if◌then◌else◌,
}
use frenetic.Base.Text.{Text, codes, split}

infixl 5 ◌>>=◌
abbrev pub ◌>>=◌ {ℓ κ} : {A : Type ℓ} {B : Type κ} → Option A → (A → Option B) → Option B
some a >>= f = f a
none >>= f = none

-- Str.split on one character: an empty first part and an empty last part are dropped.
abbrev drop_first : List Text → List Text
drop_first [] = []
drop_first ([] ∷ ps) = ps
drop_first ((c ∷ s) ∷ ps) = (c ∷ s) ∷ ps

abbrev drop_last : List Text → List Text
drop_last [] = []
drop_last ([] ∷ []) = []
drop_last ((c ∷ s) ∷ []) = (c ∷ s) ∷ []
drop_last (p ∷ q ∷ ps) = p ∷ drop_last (q ∷ ps)

unfoldable pub str_split : ℕ → Text → List Text
unfolding split
str_split sep s = drop_last (drop_first (split sep s))

abbrev between : ℕ → ℕ → ℕ → Bool
between a b c = leb a c && leb c b

abbrev digit : ℕ → Option ℕ
digit c =
    if between b'0' b'9' c
    then some (c - b'0')
    else if between b'a' b'f' c
    then some (c - b'a' + 10)
    else if between b'A' b'F' c
    then some (c - b'A' + 10)
    else none

abbrev below : ℕ → ℕ → Option ℕ
below limit n = if ltb n limit then some n else none

abbrev without_underscores : Text → Text
without_underscores [] = []
without_underscores (c ∷ s) =
    let rest = without_underscores s in if c == b'_' then rest else c ∷ rest

digits : ℕ → ℕ → Text → Option ℕ
digits base n [] = some n
digits base n (c ∷ s) = digit c >>= below base >>= λ d. digits base (n * base + d) s

-- A number starts with a digit; underscores may follow.
number : ℕ → Text → Option ℕ
unfolding digits
number base [] = none
number base (c ∷ s) = digits base 0 (c ∷ without_underscores s)

-- -n in w bits
abbrev negated : ℕ → ℕ → ℕ
negated w n = (2 ^ w - n) % 2 ^ w

-- Without a prefix the number is decimal and has a sign bit; with one it may use all bits.
abbrev decimal : ℕ → Bool → Text → Option ℕ
decimal w false s = number 10 s >>= below (2 ^ (w - 1))
decimal w true s = number 10 s >>= below (2 ^ (w - 1) + 1)

abbrev is_letter : ℕ → ℕ → Bool
is_letter l c = c == l || c + 32 == l

magnitude : ℕ → Bool → Text → Option ℕ
unfolding number
magnitude w negative (z ∷ p ∷ s) =
    if z == b'0' && is_letter b'x' p
    then number 16 s >>= below (2 ^ w)
    else if z == b'0' && is_letter b'o' p
    then number 8 s >>= below (2 ^ w)
    else if z == b'0' && is_letter b'b' p
    then number 2 s >>= below (2 ^ w)
    else if z == b'0' && is_letter b'u' p
    then number 10 s >>= below (2 ^ w)
    else decimal w negative (z ∷ p ∷ s)
magnitude w negative s = decimal w negative s

-- Int32.of_string and Int64.of_string
unfoldable pub int_of_string : ℕ → Text → Option ℕ
unfolding magnitude
int_of_string w [] = none
int_of_string w (c ∷ s) =
    if c == b'-'
    then (magnitude w true s >>= λ n. some (negated w n))
    else if c == b'+'
    then magnitude w false s
    else magnitude w false (c ∷ s)

abbrev parse_byte : Text → Option ℕ
parse_byte s = int_of_string 64 (codes "0x" ++ s)

-- `logor (shift_left ...) ...` on w bits
abbrev joined : ℕ → ℕ → ℕ → ℕ → ℕ
joined w k high low = bit_or (high * 2 ^ k % 2 ^ w) low

abbrev ip_of_parts : List Text → Option ℕ
ip_of_parts (a ∷ b ∷ c ∷ d ∷ []) = do
  w ← int_of_string 32 a
  x ← int_of_string 32 b
  y ← int_of_string 32 c
  z ← int_of_string 32 d
  some (joined 32 24 w (joined 32 16 x (joined 32 8 y z)))
ip_of_parts _ = none

unfoldable pub ip_of_string : Text → Option ℕ
unfolding str_split int_of_string
ip_of_string s = ip_of_parts (str_split b'.' s)

abbrev mac_of_parts : List Text → Option ℕ
mac_of_parts (a ∷ b ∷ c ∷ d ∷ e ∷ f ∷ []) = do
  u ← parse_byte a
  v ← parse_byte b
  w ← parse_byte c
  x ← parse_byte d
  y ← parse_byte e
  z ← parse_byte f
  some (joined 64 40 u (joined 64 32 v (joined 64 24 w (joined 64 16 x (joined 64 8 y z)))))
mac_of_parts _ = none

unfoldable pub mac_of_string : Text → Option ℕ
unfolding str_split int_of_string
mac_of_string s = mac_of_parts (str_split b':' s)
