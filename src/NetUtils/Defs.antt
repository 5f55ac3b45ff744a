-- ===== src/NetUtils/Defs.antt =====
-- lang/python/frenetic/net_utils.py: the functions of the class NetUtils.
use frenetic.Base.{
  ℕ, zero, suc, ◌+◌, ◌-◌, ◌/◌, ◌^◌, Bool, List, [], ◌∷◌, ◌++◌, Result, ok, err, ◌>>=◌, or_raise,
  value_error, type_error, assertion_error,
}
use frenetic.Base.Int.{ℤ, pos, negsuc, sub_ℕ, eq_ℤ, complement, int_and, int_or, shl}
use frenetic.Base.Text.{Text, split}
use frenetic.Base.Decimal.{show, parse_int}

-- a >> k, which rounds down
abbrev pub shr : ℤ → ℕ → ℤ
shr (pos n) k = pos (n / 2 ^ k)
shr (negsuc n) k = negsuc (n / 2 ^ k)

-- str(a)
abbrev pub str_int : ℤ → Text
str_int (pos n) = show n
str_int (negsuc n) = b'-' ∷ show (n + 1)

-- `str((integre >> shift) & 255)`
abbrev octet : ℤ → ℕ → Text
octet integre shift = str_int (int_and (shr integre shift) (pos 255))

-- '.'.join of the four octets, for n in range(4)
unfoldable pub ipv4_to_str : ℤ → Text
ipv4_to_str integre =
    octet integre 24
    ++ b'.' ∷ (octet integre 16 ++ b'.' ∷ (octet integre 8 ++ b'.' ∷ octet integre 0))

-- The loop `i = (i << 8) | int(b)`
unfoldable pub or_octets : ℤ → List Text → Result ℤ
or_octets i [] = ok i
or_octets i (b ∷ ip) = or_raise value_error (parse_int b) >>= λ n. or_octets (int_or (shl i 8) n) ip

abbrev four : List Text → Result (List Text)
four (a ∷ b ∷ c ∷ d ∷ []) = ok (a ∷ b ∷ c ∷ d ∷ [])
four _ = err assertion_error

unfoldable pub ipv4_to_int : Text → Result ℤ
ipv4_to_int string = do ip ← four (split b'.' string); or_octets (pos 0) ip

-- Unpacking into `(net, mask)` fails on any other number of parts.
abbrev two : List Text → Result (Text × Text)
two (a ∷ b ∷ []) = ok (a, b)
two _ = err value_error

unfoldable pub net_mask : Text → Result (Text × ℤ)
net_mask net_mask_combo = do
  (net, mask) ← two (split b'/' net_mask_combo)
  n ← or_raise value_error (parse_int mask)
  ok (net, n)

-- `pow(2, mask+1) - 1`; a negative exponent makes it a float, which `<<` refuses.
abbrev all_ones : ℤ → Result ℤ
all_ones (pos m) = ok (pos (2 ^ (m + 1) - 1))
all_ones (negsuc zero) = ok (pos 0)
all_ones (negsuc (suc k)) = err type_error

-- `32 - mask`
abbrev host_bits : ℤ → ℤ
host_bits (pos m) = sub_ℕ 32 m
host_bits (negsuc k) = pos (33 + k)

-- `a << k`; a negative count is a ValueError.
abbrev shift_left : ℤ → ℤ → Result ℤ
shift_left a (pos k) = ok (shl a k)
shift_left a (negsuc k) = err value_error

-- `(pow(2, mask+1) - 1) << (32 - mask)`
unfoldable pub mask_bits : ℤ → Result ℤ
mask_bits mask = do ones ← all_ones mask; shift_left ones (host_bits mask)

unfoldable pub ip_for_network : Text → Text → Result Text
ip_for_network net host = do
  (net', mask) ← net_mask net
  net_int ← ipv4_to_int net'
  bits ← mask_bits mask
  h ← or_raise value_error (parse_int host)
  ok (ipv4_to_str (int_or (int_and net_int bits) h))

unfoldable pub host_of_ip : Text → Text → Result ℤ
host_of_ip src_ip net = do
  (net', mask) ← net_mask net
  src_ip_int ← ipv4_to_int src_ip
  _ ← ipv4_to_int net'
  bits ← mask_bits mask
  ok (int_and (complement bits) src_ip_int)

unfoldable pub ip_in_network : Text → Text → Result Bool
ip_in_network src_ip net = do
  (net', mask) ← net_mask net
  net_int ← ipv4_to_int net'
  bits ← mask_bits mask
  src_net_int ← ipv4_to_int src_ip
  ok (eq_ℤ (int_and net_int bits) (int_and src_net_int bits))
