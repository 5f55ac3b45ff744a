-- ===== src/Base/Base64/Decode.antt =====
-- `base64.b64decode` of Python 2.7, which reads with `binascii.a2b_base64`: a character that is no
-- digit is passed over, and the text ends at the padding.
use Prim.Native.Nat.{ℕ, ◌+◌, ◌-◌, ◌*◌, ◌/◌, ◌%◌, ◌^◌}
use mathlib.Core.Bool.{Bool, true, false, not, ◌&&◌, ◌||◌}
use mathlib.Core.List.{[], ◌∷◌}
use frenetic.Base.Tests.{ltb, leb, ◌==◌, if◌then◌else◌}
use frenetic.Base.Outcome.{Result, ok, err, ◌>>=◌, type_error, value_error}
use frenetic.Base.Text.{Text}

pub data Sign : Type 0 where
  pad : Sign
  digit : ℕ → Sign
  noise : Sign

-- The table of the library.
unfoldable pub sign : ℕ → Sign
sign c =
    if c == b'='
    then pad
    else if leb 65 c && leb c 90
    then digit (c - 65)
    else if leb 97 c && leb c 122
    then digit (c - 71)
    else if leb 48 c && leb c 57
    then digit (c + 4)
    else if c == b'+'
    then digit 62
    else if c == b'/'
    then digit 63
    else noise

-- The next character that counts is a padding.
unfoldable pub pad_follows : Text → Bool
pad_follows [] = false
pad_follows (c ∷ s) = elim (sign c) [ pad ↦ true | digit d ↦ false | noise ↦ pad_follows s ]

abbrev pub prepend : ℕ → Result Text → Result Text
prepend b r = r >>= λ bytes. ok (b ∷ bytes)

-- The loop, with the place in a group of four digits and the bits that are left over.
unfoldable pub a2b_loop : ℕ → ℕ → ℕ → Text → Result Text
a2b_loop quad_pos leftbits leftchar [] = if leftbits == 0 then ok [] else err type_error
a2b_loop quad_pos leftbits leftchar (c ∷ s) = elim (sign c) [
  | noise ↦ a2b_loop quad_pos leftbits leftchar s
  | pad ↦ elim (ltb quad_pos 2 || (quad_pos == 2 && not (pad_follows s))) [
    | true ↦ a2b_loop quad_pos leftbits leftchar s
    | false ↦ ok []
  ]
  | digit d ↦ elim (leb 8 (leftbits + 6)) [
    | true ↦
        prepend ((leftchar * 64 + d) / 2 ^ (leftbits - 2) % 256) (
          a2b_loop ((quad_pos + 1) % 4) (leftbits - 2) ((leftchar * 64 + d) % 2 ^ (leftbits - 2)) s)
    | false ↦ a2b_loop ((quad_pos + 1) % 4) (leftbits + 6) (leftchar * 64 + d) s
  ]
]

-- A document's text is `unicode`, which is encoded as ASCII first.
abbrev pub all_ascii : Text → Bool
all_ascii [] = true
all_ascii (c ∷ s) = ltb c 128 && all_ascii s

unfoldable pub b64decode : Text → Result Text
unfolding a2b_loop
b64decode s = if all_ascii s then a2b_loop 0 0 0 s else err value_error
