-- ===== src/NetUtils/Address.antt =====
-- lang/python/frenetic/net_utils.py: ipv4_to_str and ipv4_to_int undo one another.
use frenetic.Base.{
  ℕ, ◌+◌, ◌*◌, ◌/◌, ◌%◌, ◌^◌, ◌<◌, ◌≡◌, refl, ap, ◌∙◌, List, [], ◌∷◌, ◌++◌, ok, arith, All-append,
  ◌==◌, false,
}
use frenetic.Base.Int.{ℤ, pos}
use frenetic.Base.Text.{Text, Avoids, split, split-sep, split-Avoids}
use frenetic.Base.Decimal.{show}
use frenetic.Base.Decimal.Laws.{parse_int-show, show-Avoids}
use frenetic.Base.Bits.{bit_and-ones, bit_or-shifted}
use frenetic.NetUtils.Defs.{ipv4_to_str, ipv4_to_int, or_octets}

-- The dotted form of four numbers.
pub dotted : ℕ → ℕ → ℕ → ℕ → Text
dotted a b c d = show a ++ b'.' ∷ (show b ++ b'.' ∷ (show c ++ b'.' ∷ show d))

pub ipv4_to_str-dotted :
    (n : ℕ)
    → ipv4_to_str (pos n)
      ≡ dotted (n / 2 ^ 24 % 256) (n / 2 ^ 16 % 256) (n / 2 ^ 8 % 256) (n / 2 ^ 0 % 256)
unfolding ipv4_to_str dotted
ipv4_to_str-dotted n = rw (bit_and-ones 8 (n / 2 ^ 24)) (
    rw (bit_and-ones 8 (n / 2 ^ 16))
      (rw (bit_and-ones 8 (n / 2 ^ 8)) (rw (bit_and-ones 8 (n / 2 ^ 0)) refl)))

split-dotted : (a b c d : ℕ) → split b'.' (dotted a b c d) ≡ show a ∷ show b ∷ show c ∷ show d ∷ []
unfolding dotted
split-dotted a b c d =
    split-sep b'.' (show a) _ (dot a)
    ∙ ap (◌∷◌ (show a)) (
        split-sep b'.' (show b) _ (dot b)
        ∙ ap (◌∷◌ (show b)) (
            split-sep b'.' (show c) _ (dot c)
            ∙ ap (◌∷◌ (show c)) (split-Avoids b'.' (show d) (dot d))))
  where
    dot : (n : ℕ) → Avoids b'.' (show n)
    dot n = show-Avoids b'.' n (omega arith)

-- One round of the loop.
or_octets-show :
    (i b : ℕ) (ip : List Text)
    → b < 256
    → or_octets (pos i) (show b ∷ ip) ≡ or_octets (pos (i * 256 + b)) ip
unfolding or_octets
or_octets-show i b ip h = rw (parse_int-show b) (rw (bit_or-shifted 8 i b h) refl)

or_octets-nil : (i : ℤ) → or_octets i [] ≡ ok i
unfolding or_octets
or_octets-nil i = refl

-- The number of a dotted address.
pub ipv4_to_int-dotted :
    (a b c d : ℕ)
    → a < 256
    → b < 256
    → c < 256
    → d < 256
    → ipv4_to_int (dotted a b c d) ≡ ok (pos (((a * 256 + b) * 256 + c) * 256 + d))
unfolding ipv4_to_int
ipv4_to_int-dotted a b c d ha hb hc hd = rw (split-dotted a b c d) (
    or_octets-show 0 a (show b ∷ show c ∷ show d ∷ []) ha
    ∙ or_octets-show (0 * 256 + a) b (show c ∷ show d ∷ []) hb
    ∙ or_octets-show ((0 * 256 + a) * 256 + b) c (show d ∷ []) hc
    ∙ or_octets-show (((0 * 256 + a) * 256 + b) * 256 + c) d [] hd
    ∙ or_octets-nil _
    ∙ ap (λ i. ok (pos i)) (omega arith))

-- Printing an address and reading it back yields the address.
pub ipv4_to_int-ipv4_to_str : (n : ℕ) → n < 2 ^ 32 → ipv4_to_int (ipv4_to_str (pos n)) ≡ ok (pos n)
ipv4_to_int-ipv4_to_str n h =
    ap ipv4_to_int (ipv4_to_str-dotted n)
    ∙ ipv4_to_int-dotted (n / 2 ^ 24 % 256) (n / 2 ^ 16 % 256) (n / 2 ^ 8 % 256) (n / 2 ^ 0 % 256)
        (omega arith) (omega arith) (omega arith) (omega arith)
    ∙ ap (λ i. ok (pos i)) (omega arith)

dotted-Avoids : (a b c d : ℕ) → Avoids b'/' (dotted a b c d)
unfolding dotted
dotted-Avoids a b c d = part a _ (part b _ (part c _ (slash d)))
  where
    slash : (n : ℕ) → Avoids b'/' (show n)
    slash n = show-Avoids b'/' n (omega arith)

    part : (n : ℕ) (s : Text) → Avoids b'/' s → Avoids b'/' (show n ++ b'.' ∷ s)
    part n s h = All-append (λ c. (c == b'/') ≡ false) (show n) (b'.' ∷ s) (slash n) (refl, h)

-- A printed address has no slash.
pub ipv4_to_str-Avoids : (n : ℕ) → Avoids b'/' (ipv4_to_str (pos n))
ipv4_to_str-Avoids n = rw (ipv4_to_str-dotted n) (dotted-Avoids _ _ _ _)
