-- ===== src/NetUtils/Network.antt =====
-- lang/python/frenetic/net_utils.py: networks in CIDR notation. The mask of these functions has 33
-- bits, of which an address meets 32.
use frenetic.Base.{
  ℕ, ◌+◌, ◌-◌, ◌*◌, ◌/◌, ◌%◌, ◌^◌, ◌≤◌, ◌<◌, ◌≡◌, refl, ap, sym, ◌∙◌, false, ◌∷◌, ◌++◌, ok, arith,
  ◌==◌, Bool-cases, inl, inr, ==_iff, ==_refl,
}
use Prim.Native.Nat.{bit_and}
use native.Mathlib.Nat.{one-le-pow, div-add-mod', mul-div_cancel}
use frenetic.Base.Int.{pos}
use frenetic.Base.Text.{Text, split-sep, split-Avoids}
use frenetic.Base.Decimal.{show}
use frenetic.Base.Decimal.Laws.{parse_int-show, show-Avoids}
use frenetic.Base.Bits.{bit_and-high, bit_or-shifted}
use frenetic.NetUtils.Defs.{
  ipv4_to_str, net_mask, mask_bits, ip_for_network, host_of_ip, ip_in_network,
}
use frenetic.NetUtils.Address.{ipv4_to_int-ipv4_to_str, ipv4_to_str-Avoids}

-- The text of an address, and of a network.
abbrev pub address : ℕ → Text
address n = ipv4_to_str (pos n)

abbrev pub cidr : ℕ → ℕ → Text
cidr n m = address n ++ b'/' ∷ show m

net_mask-cidr : (n m : ℕ) → net_mask (cidr n m) ≡ ok (address n, pos m)
unfolding net_mask
net_mask-cidr n m = rw (split-sep b'/' (address n) (show m) (ipv4_to_str-Avoids n)) (
    rw (split-Avoids b'/' (show m) (show-Avoids b'/' m (omega arith))) (rw (parse_int-show m) refl))

abbrev mask : ℕ → ℕ
mask m = (2 ^ (m + 1) - 1) * 2 ^ (32 - m)

mask_bits-pos : (m : ℕ) → m ≤ 32 → mask_bits (pos m) ≡ ok (pos (mask m))
unfolding mask_bits
mask_bits-pos m h = ground arith

-- What the mask leaves of an address: the bits of its network.
bit_and-mask :
    (m n : ℕ) → m ≤ 32 → n < 2 ^ 32 → bit_and n (mask m) ≡ n / 2 ^ (32 - m) * 2 ^ (32 - m)
bit_and-mask m n h lt =
    bit_and-high (32 - m) (m + 1) n
      (let e : m + 1 + (32 - m) ≡ 33 = omega arith in rw e (omega arith))

blocks_injective : (k a b : ℕ) → 0 < k → a * k ≡ b * k → a ≡ b
blocks_injective k a b h e = sym (mul-div_cancel a h) ∙ ap (λ t. t / k) e ∙ mul-div_cancel b h

eq_blocks : (k a b : ℕ) → 0 < k → (a * k == b * k) ≡ (a == b)
eq_blocks k a b h = elim (Bool-cases (a == b)) [
  | inl e ↦ rw e (rw ((==_iff a b).0 e) (==_refl (b * k)))
  | inr e ↦ elim (Bool-cases (a * k == b * k)) [
    | inl f ↦ absurd (differ e (blocks_injective k a b h ((==_iff (a * k) (b * k)).0 f)))
    | inr f ↦ rw f (rw e refl)
  ]
]
  where
    differ : (a == b) ≡ false → a ≡ b → ⊥
    differ e eq = ground arith

module _ (n m : ℕ) (fits : n < 2 ^ 32) (short : m ≤ 32) where
  -- For a network n/m of at most 32 bits: ip_in_network returns, and says of an address that it is
  -- in the network exactly if the two agree in their first m bits.
  pub ip_in_network-cidr :
      (s : ℕ)
      → s < 2 ^ 32
      → ip_in_network (address s) (cidr n m) ≡ ok (n / 2 ^ (32 - m) == s / 2 ^ (32 - m))
  unfolding ip_in_network
  ip_in_network-cidr s lt = rw (net_mask-cidr n m) (
      rw (ipv4_to_int-ipv4_to_str n fits) (
        rw (mask_bits-pos m short) (
          rw (ipv4_to_int-ipv4_to_str s lt) (
            rw (bit_and-mask m n short fits) (
              rw (bit_and-mask m s short lt)
                (ap ok (eq_blocks _ _ _ (one-le-pow (32 - m) 2 (omega arith)))))))))

  -- host_of_ip of an address and a network yields the bits of the host.
  pub host_of_ip-cidr :
      (s : ℕ) → s < 2 ^ 32 → host_of_ip (address s) (cidr n m) ≡ ok (pos (s % 2 ^ (32 - m)))
  unfolding host_of_ip
  host_of_ip-cidr s lt = rw (net_mask-cidr n m) (
      rw (ipv4_to_int-ipv4_to_str s lt) (
        rw (ipv4_to_int-ipv4_to_str n fits) (
          rw (mask_bits-pos m short) (
            ap (λ t. ok (pos t))
              (omega (arith, bit_and-mask m s short lt, div-add-mod' s (2 ^ (32 - m))))))))

  -- ip_for_network of a network and a host that fits its bits yields the address of the one with
  -- the bits of the other.
  pub ip_for_network-cidr :
      (h : ℕ)
      → h < 2 ^ (32 - m)
      → ip_for_network (cidr n m) (show h) ≡ ok (address (n / 2 ^ (32 - m) * 2 ^ (32 - m) + h))
  unfolding ip_for_network
  ip_for_network-cidr h lt = rw (net_mask-cidr n m) (
      rw (ipv4_to_int-ipv4_to_str n fits) (
        rw (mask_bits-pos m short) (
          rw (parse_int-show h) (
            rw (bit_and-mask m n short fits)
              (rw (bit_or-shifted (32 - m) (n / 2 ^ (32 - m)) h lt) refl)))))
