-- ===== src/Packet/Semantics.antt =====
-- What Packet.matches of lang/python/frenetic/packet.py decides.
use frenetic.Base.{
  ℕ, Bool, true, false, ◌&&◌, ◌≡◌, refl, ap, sym, ◌∙◌, none, some, Result, ok, err, arith, ◌/◌, ◌^◌,
  ◌-◌, ◌<◌, ◌≤◌, ◌==◌, >>=-eq-ok,
}
use frenetic.Base.Int.{pos}
use frenetic.NetUtils.Network.{address, ip_in_network-cidr}
use frenetic.Syntax.Ast.{HeaderAndValue, ip4_src, ip4_dst, Pred, Preds}
use frenetic.Syntax.Meaning.{full, holds, holds_all, holds_any}
use frenetic.Netkat.Eval.{Packets}
use frenetic.Packet.Defs.{Packet}
use frenetic.Packet.Match.{match_test, matches, match_all, match_any}

abbrev is_ok_true : Result Bool → Bool
is_ok_true (ok b) = b
is_ok_true (err e) = false

abbrev is_ok : Result Bool → Bool
is_ok (ok b) = true
is_ok (err e) = false

-- Packets that answer a test as the client does, and keep what they are.
abbrev pub client_packets : Packets Packet
client_packets = record { holds = λ hv pkt. is_ok_true (match_test pkt hv); assign = λ hv pkt. pkt }

match_test-full :
    (pkt : Packet) (hv : HeaderAndValue) → match_test pkt (full hv) ≡ match_test pkt hv
unfolding match_test
match_test-full pkt (ip4_src s none) = refl
match_test-full pkt (ip4_dst s none) = refl
match_test-full pkt hv = refl

mutual
  unfolding matches holds

  sound :
      (pkt : Packet) (p : Pred) (b : Bool) → matches pkt p ≡ ok b → holds client_packets pkt p ≡ b
  sound pkt Pred.id b h = ground arith
  sound pkt Pred.drop b h = ground arith
  sound pkt (Pred.and ps) b h = sound_all pkt ps b h
  sound pkt (Pred.or ps) b h = sound_any pkt ps b h
  sound pkt (Pred.not p) b h =
      let (c, e, f) = >>=-eq-ok (matches pkt p) _ h in ground (arith, sound pkt p c e)
  sound pkt (Pred.multi_pred p) b h = sound pkt p b h
  sound pkt (Pred.test hv) b h = rw (match_test-full pkt hv, h) refl

  sound_all :
      (pkt : Packet) (ps : Preds) (b : Bool)
      → match_all pkt ps ≡ ok b
      → holds_all client_packets pkt ps ≡ b
  sound_all pkt Preds.nil b h = ground arith
  sound_all pkt (Preds.cons p ps) b h =
      let (c, e, f) = >>=-eq-ok (matches pkt p) _ h in
      ground (arith, sound pkt p c e, sound_all pkt ps b)

  sound_any :
      (pkt : Packet) (ps : Preds) (b : Bool)
      → match_any pkt ps ≡ ok b
      → holds_any client_packets pkt ps ≡ b
  sound_any pkt Preds.nil b h = ground arith
  sound_any pkt (Preds.cons p ps) b h =
      let (c, e, f) = >>=-eq-ok (matches pkt p) _ h in
      ground (arith, sound pkt p c e, sound_any pkt ps b)

-- Where `matches` returns, its short-circuit loops return what the predicate means.
pub matches_sound :
    (pkt : Packet) (p : Pred) (b : Bool) → matches pkt p ≡ ok b → holds client_packets pkt p ≡ b
matches_sound = sound

-- Every test in a predicate can be answered for the packet.
unfoldable mutual
  pub decided : Packet → Pred → Bool
  decided pkt Pred.id = true
  decided pkt Pred.drop = true
  decided pkt (Pred.and ps) = all_decided pkt ps
  decided pkt (Pred.or ps) = all_decided pkt ps
  decided pkt (Pred.not p) = decided pkt p
  decided pkt (Pred.multi_pred p) = decided pkt p
  decided pkt (Pred.test hv) = is_ok (match_test pkt hv)

  pub all_decided : Packet → Preds → Bool
  all_decided pkt Preds.nil = true
  all_decided pkt (Preds.cons p ps) = decided pkt p && all_decided pkt ps

mutual
  unfolding matches decided

  total : (pkt : Packet) (p : Pred) → decided pkt p ≡ true → is_ok (matches pkt p) ≡ true
  total pkt Pred.id h = refl
  total pkt Pred.drop h = refl
  total pkt (Pred.and ps) h = total_all pkt ps h
  total pkt (Pred.or ps) h = total_any pkt ps h
  total pkt (Pred.not p) h = ground (arith, total pkt p)
  total pkt (Pred.multi_pred p) h = total pkt p h
  total pkt (Pred.test hv) h = h

  total_all :
      (pkt : Packet) (ps : Preds) → all_decided pkt ps ≡ true → is_ok (match_all pkt ps) ≡ true
  total_all pkt Preds.nil h = refl
  total_all pkt (Preds.cons p ps) h = ground (arith, total pkt p, total_all pkt ps)

  total_any :
      (pkt : Packet) (ps : Preds) → all_decided pkt ps ≡ true → is_ok (match_any pkt ps) ≡ true
  total_any pkt Preds.nil h = refl
  total_any pkt (Preds.cons p ps) h = ground (arith, total pkt p, total_any pkt ps)

is_ok-true : (r : Result Bool) → is_ok r ≡ true → (b : Bool) × (r ≡ ok b)
is_ok-true (ok b) h = (b, refl)
is_ok-true (err e) h = cc

-- Where every test can be answered, `matches` returns what the predicate means.
pub matches-holds :
    (pkt : Packet) (p : Pred)
    → decided pkt p ≡ true
    → matches pkt p ≡ ok (holds client_packets pkt p)
matches-holds pkt p h =
    let (b, e) = is_ok-true (matches pkt p) (total pkt p h) in
    e ∙ ap ok (sym (matches_sound pkt p b e))

module _ (pkt : Packet) (s n m : ℕ) (sfits : s < 2 ^ 32) (fits : n < 2 ^ 32) (short : m ≤ 32) where
  -- A packet from the address s matches the source network n/m exactly if s and n agree in
  -- their first m bits.
  pub matches-ip4_src :
      pkt.ip4_src ≡ some (address s)
      → matches pkt (Pred.test (ip4_src (address n) (some (pos m))))
        ≡ ok (n / 2 ^ (32 - m) == s / 2 ^ (32 - m))
  unfolding matches match_test
  matches-ip4_src e = rw e (ip_in_network-cidr n m fits short s sfits)

  pub matches-ip4_dst :
      pkt.ip4_dst ≡ some (address s)
      → matches pkt (Pred.test (ip4_dst (address n) (some (pos m))))
        ≡ ok (n / 2 ^ (32 - m) == s / 2 ^ (32 - m))
  unfolding matches match_test
  matches-ip4_dst e = rw e (ip_in_network-cidr n m fits short s sfits)
