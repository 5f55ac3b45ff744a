-- ===== src/Base/Base64.antt =====
-- `base64.b64encode` on a string of bytes.
pub mod Decode
pub mod Laws
use Prim.Native.Nat.{ℕ, ◌+◌, ◌-◌, ◌*◌, ◌/◌, ◌%◌}
use mathlib.Core.List.{[], ◌∷◌}
use frenetic.Base.Tests.{ltb, ◌==◌, if◌then◌else◌}
use frenetic.Base.Text.{Text}

-- A to Z, a to z, 0 to 9, + and /
unfoldable pub digit : ℕ → ℕ
digit i =
    if ltb i 26
    then 65 + i
    else if ltb i 52
    then 71 + i
    else if ltb i 62
    then i - 4
    else if i == 62
    then b'+'
    else b'/'

unfoldable pub b64encode : Text → Text
unfolding digit
b64encode [] = []
b64encode (a ∷ []) = digit (a / 4) ∷ digit (a % 4 * 16) ∷ b'=' ∷ b'=' ∷ []
b64encode (a ∷ b ∷ []) =
    digit (a / 4) ∷ digit (a % 4 * 16 + b / 16) ∷ digit (b % 16 * 4) ∷ b'=' ∷ []
b64encode (a ∷ b ∷ c ∷ rest) =
    digit (a / 4)
    ∷ digit (a % 4 * 16 + b / 16)
    ∷ digit (b % 16 * 4 + c / 64)
    ∷ digit (c % 64)
    ∷ b64encode rest
