-- ===== src/Base/Bits.antt =====
-- Laws of `bit_and` and `bit_or` at variables: masks, and fields that do not overlap.
use Prim.Native.Nat.{
  ℕ, zero, suc, ◌+◌, ◌-◌, ◌*◌, ◌/◌, ◌%◌, ◌^◌, ◌≤◌, ◌<◌, min, max, bit_and, bit_or, digits,
  bit_and-bitwise, bit_or-bitwise,
}
use mathlib.Core.Path.{◌≡◌, refl, ◌∙◌, ap, sym}
use native.Mathlib.Nat.{
  pow-suc, one-le-pow, div-add-mod, div-div-eq-div-mul, mod-eq_of_lt, mul_comm,
}
use native.Mathlib.Omega.{arith}

-- `digits` does not depend on its fuel, once there is as much as the first number.
module _ (rest : ℕ → ℕ) (join : ℕ → ℕ → ℕ) where
  settled : (a b k l : ℕ) → a ≤ k → a ≤ l → digits rest join k a b ≡ digits rest join l a b
  settled (suc a) b zero l u v = absurd (omega (arith, u))
  settled (suc a) b (suc k) zero u v = absurd (omega (arith, v))
  settled (suc a) b (suc k) (suc l) u v =
      let half = settled (suc a / 2) (b / 2) k l (omega arith) (omega arith) in omega (arith, half)
  settled zero b (suc k) (suc l) u v = refl
  settled zero b (suc k) zero u v = refl
  settled zero b zero (suc l) u v = refl
  settled zero b zero zero u v = refl

-- The last binary digit, and the others.
pub bit_or_halves : (a b : ℕ) → bit_or a b ≡ 2 * bit_or (a / 2) (b / 2) + max (a % 2) (b % 2)
bit_or_halves zero b =
    let whole = bit_or-bitwise 0 b in
    let half = bit_or-bitwise 0 (b / 2) in omega (arith, whole, half)
bit_or_halves (suc a) b =
    let enough =
      settled (λ y. y) max (suc a / 2) (b / 2) a (suc a / 2) (omega arith) (omega arith) in
    let whole = bit_or-bitwise (suc a) b in
    let half = bit_or-bitwise (suc a / 2) (b / 2) in omega (arith, whole, half, enough)

pub bit_and_halves : (a b : ℕ) → bit_and a b ≡ 2 * bit_and (a / 2) (b / 2) + min (a % 2) (b % 2)
bit_and_halves zero b =
    let whole = bit_and-bitwise 0 b in
    let half = bit_and-bitwise 0 (b / 2) in omega (arith, whole, half)
bit_and_halves (suc a) b =
    let enough =
      settled (λ y. 0) min (suc a / 2) (b / 2) a (suc a / 2) (omega arith) (omega arith) in
    let whole = bit_and-bitwise (suc a) b in
    let half = bit_and-bitwise (suc a / 2) (b / 2) in omega (arith, whole, half, enough)

-- Nothing is set in 0.
zero_upto : (n a : ℕ) → a < n → (bit_or a 0 ≡ a) × (bit_and a 0 ≡ 0)
zero_upto zero a lt = absurd (omega arith)
zero_upto (suc n) zero lt = (bit_or-bitwise 0 0, bit_and-bitwise 0 0)
zero_upto (suc n) (suc a) lt =
    let (o, i) = zero_upto n (suc a / 2) (omega arith) in
    (omega (arith, bit_or_halves (suc a) 0, o), omega (arith, bit_and_halves (suc a) 0, i))

pub bit_or-zero : (a : ℕ) → bit_or a 0 ≡ a
bit_or-zero a = (zero_upto (a + 1) a (omega arith)).0

pub bit_and-zero : (a : ℕ) → bit_and a 0 ≡ 0
bit_and-zero a = (zero_upto (a + 1) a (omega arith)).1

pow_pos : (k : ℕ) → 0 < 2 ^ k
pow_pos k = one-le-pow k 2 (omega arith)

high_half : (c m : ℕ) → c * (m * 2) / 2 ≡ c * m
high_half c m = omega arith

div_step : (m a : ℕ) → a / (m * 2) ≡ a / 2 / m
div_step m a = rw (mul_comm m 2) (sym (div-div-eq-div-mul a 2 m))

-- A field above the lowest k bits, joined with a field within them, is their sum.
or_step :
    (m a b : ℕ) → bit_or (a * m) (b / 2) ≡ a * m + b / 2 → bit_or (a * (m * 2)) b ≡ a * (m * 2) + b
or_step m a b h = bit_or_halves (a * (m * 2)) b ∙ rw (high_half a m) (omega (arith, h))

pub bit_or-shifted : (k a b : ℕ) → b < 2 ^ k → bit_or (a * 2 ^ k) b ≡ a * 2 ^ k + b
bit_or-shifted zero a b h = let e : b ≡ 0 = omega arith in rw e (bit_or-zero (a * 1) ∙ omega arith)
bit_or-shifted (suc k) a b h =
    rw (pow-suc 2 k) (or_step (2 ^ k) a b (bit_or-shifted k a (b / 2) (omega (arith, pow-suc 2 k))))

mod_step : (m a : ℕ) → 0 < m → a % (m * 2) ≡ (a / 2) % m * 2 + a % 2
mod_step m a h =
    omega (arith, div-add-mod a (m * 2), div-add-mod (a / 2) m, ap (λ q. m * q) (div_step m a))

ones_half : (m : ℕ) → 0 < m → (m * 2 - 1) / 2 ≡ m - 1
ones_half m h = omega arith

and_ones_step :
    (m a : ℕ) → 0 < m → bit_and (a / 2) (m - 1) ≡ (a / 2) % m → bit_and a (m * 2 - 1) ≡ a % (m * 2)
and_ones_step m a p h =
    bit_and_halves a (m * 2 - 1) ∙ rw (ones_half m p) (omega (arith, h, mod_step m a p))

-- A mask of k ones takes the remainder.
pub bit_and-ones : (k a : ℕ) → bit_and a (2 ^ k - 1) ≡ a % 2 ^ k
bit_and-ones zero a = bit_and-zero a ∙ omega arith
bit_and-ones (suc k) a =
    rw (pow-suc 2 k) (and_ones_step (2 ^ k) a (pow_pos k) (bit_and-ones k (a / 2)))

and_high_step :
    (c m a : ℕ)
    → 0 < m
    → bit_and (a / 2) (c * m) ≡ a / 2 / m * m
    → bit_and a (c * (m * 2)) ≡ a / (m * 2) * (m * 2)
and_high_step c m a p h =
    bit_and_halves a (c * (m * 2)) ∙ rw (high_half c m, div_step m a) (omega (arith, h))

half_lt : (n k a : ℕ) → a < 2 ^ (n + suc k) → a / 2 < 2 ^ (n + k)
half_lt n k a h =
    let e : n + suc k ≡ suc (n + k) = omega arith in
    let h' : a < 2 ^ suc (n + k) = rw e at h in omega (arith, pow-suc 2 (n + k), h')

-- A mask of ones above the lowest k bits, for a number that has no bits above the mask.
pub bit_and-high :
    (k n a : ℕ) → a < 2 ^ (n + k) → bit_and a ((2 ^ n - 1) * 2 ^ k) ≡ a / 2 ^ k * 2 ^ k
bit_and-high zero n a h =
    ap (bit_and a) (omega arith)
    ∙ bit_and-ones n a
    ∙ mod-eq_of_lt (let e : n + 0 ≡ n = omega arith in rw e at h)
    ∙ omega arith
bit_and-high (suc k) n a h =
    rw (pow-suc 2 k)
      (and_high_step (2 ^ n - 1) (2 ^ k) a (pow_pos k) (bit_and-high k n (a / 2) (half_lt n k a h)))
