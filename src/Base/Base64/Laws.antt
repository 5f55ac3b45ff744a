-- ===== src/Base/Base64/Laws.antt =====
-- Decoding undoes encoding.
use Prim.Native.Nat.{ℕ, ◌+◌, ◌*◌, ◌/◌, ◌%◌, ◌<◌}
use mathlib.Core.Path.{◌≡◌, refl, ap, ◌∙◌}
use mathlib.Core.Bool.{true}
use mathlib.Core.List.{[], ◌∷◌}
use native.Mathlib.Omega.{arith}
use frenetic.Base.Tests.{ltb}
use frenetic.Base.Lists.{All}
use frenetic.Base.Outcome.{ok}
use frenetic.Base.Text.{Text}
use frenetic.Base.Base64.{digit, b64encode}
use frenetic.Base.Base64.Decode
use frenetic.Base.Base64.Decode.{sign, pad_follows, all_ascii, prepend, a2b_loop, b64decode}

sign-digit : (i : ℕ) → i < 64 → sign (digit i) ≡ Decode.digit i
unfolding sign digit
sign-digit i h = ground arith

digit-ascii : (i : ℕ) → i < 64 → ltb (digit i) 128 ≡ true
unfolding digit
digit-ascii i h = ground arith

-- A digit that leaves fewer than eight bits, and one that completes a byte.
loop_first :
    (ch i : ℕ) (s : Text) → i < 64 → a2b_loop 0 0 ch (digit i ∷ s) ≡ a2b_loop 1 6 (ch * 64 + i) s
unfolding a2b_loop
loop_first ch i s h = rw (sign-digit i h, a2b_loop) refl

loop_second :
    (ch i : ℕ) (s : Text)
    → i < 64
    → a2b_loop 1 6 ch (digit i ∷ s)
      ≡ prepend ((ch * 64 + i) / 16 % 256) (a2b_loop 2 4 ((ch * 64 + i) % 16) s)
unfolding a2b_loop
loop_second ch i s h = rw (sign-digit i h, a2b_loop) refl

loop_third :
    (ch i : ℕ) (s : Text)
    → i < 64
    → a2b_loop 2 4 ch (digit i ∷ s)
      ≡ prepend ((ch * 64 + i) / 4 % 256) (a2b_loop 3 2 ((ch * 64 + i) % 4) s)
unfolding a2b_loop
loop_third ch i s h = rw (sign-digit i h, a2b_loop) refl

loop_fourth :
    (ch i : ℕ) (s : Text)
    → i < 64
    → a2b_loop 3 2 ch (digit i ∷ s)
      ≡ prepend ((ch * 64 + i) / 1 % 256) (a2b_loop 0 0 ((ch * 64 + i) % 1) s)
unfolding a2b_loop
loop_fourth ch i s h = rw (sign-digit i h, a2b_loop) refl

-- The padding ends a group of two digits, and one of three.
loop_two : (ch : ℕ) → a2b_loop 2 4 ch (b'=' ∷ b'=' ∷ []) ≡ ok []
unfolding a2b_loop sign pad_follows
loop_two ch = refl

loop_three : (ch : ℕ) → a2b_loop 3 2 ch (b'=' ∷ []) ≡ ok []
unfolding a2b_loop sign
loop_three ch = refl

abbrev pub IsBytes : Text → Type 0
IsBytes = All (λ b. b < 256)

prepend-eq : {a b : ℕ} {bs : Text} → a ≡ b → prepend a (ok bs) ≡ ok (b ∷ bs)
prepend-eq e = rw e refl

loop-b64encode : (bs : Text) → IsBytes bs → a2b_loop 0 0 0 (b64encode bs) ≡ ok bs
unfolding b64encode
loop-b64encode [] h = unfold a2b_loop in refl
loop-b64encode (a ∷ []) h =
    loop_first 0 (a / 4) _ (omega arith)
    ∙ loop_second (0 * 64 + a / 4) (a % 4 * 16) _ (omega arith)
    ∙ ap (prepend _) (loop_two _)
    ∙ prepend-eq (omega arith)
loop-b64encode (a ∷ b ∷ []) h =
    loop_first 0 (a / 4) _ (omega arith)
    ∙ loop_second (0 * 64 + a / 4) (a % 4 * 16 + b / 16) _ (omega arith)
    ∙ ap (prepend _) (
        loop_third _ (b % 16 * 4) _ (omega arith)
        ∙ ap (prepend _) (loop_three _)
        ∙ prepend-eq {b = b} (omega arith))
    ∙ prepend-eq (omega arith)
loop-b64encode (a ∷ b ∷ c ∷ rest) h =
    loop_first 0 (a / 4) _ (omega arith)
    ∙ loop_second (0 * 64 + a / 4) (a % 4 * 16 + b / 16) _ (omega arith)
    ∙ ap (prepend _) (
        loop_third _ (b % 16 * 4 + c / 64) _ (omega arith)
        ∙ ap (prepend _) (
            loop_fourth _ (c % 64) _ (omega arith)
            ∙ ap (prepend _) (
                ap (λ l. a2b_loop 0 0 l (b64encode rest)) (omega arith)
                ∙ loop-b64encode rest h.1.1.1)
            ∙ prepend-eq {b = c} (omega arith))
        ∙ prepend-eq {b = b} (omega arith))
    ∙ prepend-eq (omega arith)

ascii-b64encode : (bs : Text) → IsBytes bs → all_ascii (b64encode bs) ≡ true
unfolding b64encode
ascii-b64encode [] h = refl
ascii-b64encode (a ∷ []) h =
    rw (digit-ascii (a / 4) (omega arith)) (rw (digit-ascii (a % 4 * 16) (omega arith)) refl)
ascii-b64encode (a ∷ b ∷ []) h = rw (digit-ascii (a / 4) (omega arith)) (
    rw (digit-ascii (a % 4 * 16 + b / 16) (omega arith))
      (rw (digit-ascii (b % 16 * 4) (omega arith)) refl))
ascii-b64encode (a ∷ b ∷ c ∷ rest) h = rw (digit-ascii (a / 4) (omega arith)) (
    rw (digit-ascii (a % 4 * 16 + b / 16) (omega arith)) (
      rw (digit-ascii (b % 16 * 4 + c / 64) (omega arith))
        (rw (digit-ascii (c % 64) (omega arith)) (ascii-b64encode rest h.1.1.1))))

-- What b64encode makes of bytes, b64decode takes back to the bytes.
pub b64decode-b64encode : (bs : Text) → IsBytes bs → b64decode (b64encode bs) ≡ ok bs
unfolding b64decode
b64decode-b64encode bs h = rw (ascii-b64encode bs h) (loop-b64encode bs h)
