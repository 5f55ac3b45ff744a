-- ===== src/Syntax/Wire/Header.antt =====
-- The controller's reader takes back each header that lang/python/frenetic/syntax.py prints.
use frenetic.Base.{
  ◌≡◌, refl, ap, true, [], ◌∷◌, none, some, arith, all, All, ◌^◌, ◌%◌, ℕ, Option, is_some, ltb,
  ltb→lt, lt→ltb,
}
use frenetic.Base.Int.{pos, negsuc}
use frenetic.Base.Text.{Text}
use frenetic.Base.Decimal.{show, is_digit}
use frenetic.Base.Decimal.Laws.{IsDigit, show-IsDigit, parse_int-show}
use frenetic.Json.{Json}
use frenetic.Syntax.Ast.{
  physical, pipe, query, HeaderAndValue, switch, location, eth_src, eth_dst, vlan, vlan_pcp,
  eth_type, ip_proto, ip4_src, ip4_dst, tcp_src_port, tcp_dst_port,
}
use frenetic.Syntax.Print.{value_to_json, hv_to_json}
use frenetic.Syntax.Meaning.{full}
use frenetic.Syntax.Wire.Lower.{hv_in_range}
use frenetic.Netkat.Address.{mac_of_string, ip_of_string}
use frenetic.Netkat.Read.{from_json_header_val}

all-is_digit : (s : Text) → All IsDigit s → all is_digit s ≡ true
unfolding is_digit
all-is_digit [] h = refl
all-is_digit (c ∷ s) h = ground (arith, all-is_digit s)

some_at : (o : Option ℕ) → is_some o ≡ true → (n : ℕ) × (o ≡ some n)
some_at none h = cc
some_at (some n) h = (n, refl)

int_fits : (n : ℕ) → ltb n (2 ^ 32) ≡ true → ltb n (2 ^ 62) ≡ true
int_fits n h = lt→ltb n (2 ^ 62) (omega (arith, ltb→lt n (2 ^ 32) h))

word_fits : (n : ℕ) → ltb n (2 ^ 32) ≡ true → n % 2 ^ 32 ≡ n
word_fits n h = omega (arith, ltb→lt n (2 ^ 32) h)

pub from_json_header_val-hv_to_json :
    (type' : Json) (hv : HeaderAndValue)
    → hv_in_range hv ≡ true
    → from_json_header_val (hv_to_json type' hv) ≡ some (full hv)
unfolding from_json_header_val value_to_json
from_json_header_val-hv_to_json type' (switch v) h =
    rw (all-is_digit (show v) (show-IsDigit v)) (rw (parse_int-show v) (rw h refl))
from_json_header_val-hv_to_json type' (location (physical p)) h =
    rw (int_fits p h) (ap (λ n. some (location (physical n))) (word_fits p h))
from_json_header_val-hv_to_json type' (location (pipe s)) h = refl
from_json_header_val-hv_to_json type' (location (query s)) h = refl
from_json_header_val-hv_to_json type' (eth_src v) h =
    let (n, e) = some_at (mac_of_string v) h in rw e refl
from_json_header_val-hv_to_json type' (eth_dst v) h =
    let (n, e) = some_at (mac_of_string v) h in rw e refl
from_json_header_val-hv_to_json type' (vlan v) h = rw h refl
from_json_header_val-hv_to_json type' (vlan_pcp v) h = rw h refl
from_json_header_val-hv_to_json type' (eth_type v) h = rw h refl
from_json_header_val-hv_to_json type' (ip_proto v) h = rw h refl
from_json_header_val-hv_to_json type' (ip4_src s none) h =
    let (n, e) = some_at (ip_of_string s) h in rw e refl
from_json_header_val-hv_to_json type' (ip4_src s (some (pos m))) h =
    let (n, e) = some_at (ip_of_string s) (ground arith) in
    let k : ltb m (2 ^ 32) ≡ true = ground arith in
    rw e (rw (int_fits m k) (ap (λ n. some (ip4_src s (some (pos n)))) (word_fits m k)))
from_json_header_val-hv_to_json type' (ip4_src s (some (negsuc m))) h = cc
from_json_header_val-hv_to_json type' (ip4_dst s none) h =
    let (n, e) = some_at (ip_of_string s) h in rw e refl
from_json_header_val-hv_to_json type' (ip4_dst s (some (pos m))) h =
    let (n, e) = some_at (ip_of_string s) (ground arith) in
    let k : ltb m (2 ^ 32) ≡ true = ground arith in
    rw e (rw (int_fits m k) (ap (λ n. some (ip4_dst s (some (pos n)))) (word_fits m k)))
from_json_header_val-hv_to_json type' (ip4_dst s (some (negsuc m))) h = cc
from_json_header_val-hv_to_json type' (tcp_src_port v) h = rw h refl
from_json_header_val-hv_to_json type' (tcp_dst_port v) h = rw h refl
