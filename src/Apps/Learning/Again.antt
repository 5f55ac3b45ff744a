-- ===== src/Apps/Learning/Again.antt =====
-- lang/python/frenetic/examples/learning.py: an address is learned once.
use frenetic.Base.{
  ℕ, Bool, true, false, ◌≡◌, refl, ap, ◌∙◌, List, [], ◌∷◌, ◌++◌, Option, Result, ok, err, arith,
  key_error, is_some, Bool-cases, Option-cases, inl, inr,
}
use mathlib.Core.Path.{subst}
use frenetic.Base.Text.{Text}
use frenetic.Packet.Defs.{Packet, Protocol}
use frenetic.Packet.Decode.{from_payload}
use frenetic.Apps.Firewall.Safety.{eq_text_refl}
use frenetic.Apps.Learning.Dict.{get, put}
use frenetic.Apps.Learning.State.{State, ensure, seen, put_mac, learn_mac, learn_parsed, learn}
use frenetic.Apps.Learning.Keys.{ensure-topo}

seen-append : (mac : Option Text) (macs : List (Option Text)) → seen mac (macs ++ mac ∷ []) ≡ true
unfolding seen
seen-append mac [] = rw (eq_text_refl mac) refl
seen-append mac (m ∷ macs) = ground (arith, seen-append mac macs)

ensure-known : (sw : ℕ) (s : State) → is_some (get sw s.topo) ≡ true → ensure sw s ≡ s
unfolding ensure
ensure-known sw s h = rw h refl

learn_mac-seen :
    (sw : ℕ) (mac : Option Text) (pt : ℕ) (s : State)
    → seen mac s.all_ethernet ≡ true
    → learn_mac sw mac pt s ≡ (s, ok false)
unfolding learn_mac
learn_mac-seen sw mac pt s h = rw h refl

-- What is so once an address has been learned.
record IsKnown (sw : ℕ) (mac : Option Text) (s : State) : Type 0 where
  there : is_some (get sw s.topo) ≡ true
  known : seen mac s.all_ethernet ≡ true

learn_mac-IsKnown :
    (sw : ℕ) (mac : Option Text) (pt : ℕ) (s s' : State) (b : Bool)
    → is_some (get sw s.topo) ≡ true
    → learn_mac sw mac pt s ≡ (s', ok b)
    → IsKnown sw mac s'
unfolding learn_mac
learn_mac-IsKnown sw mac pt s s' b h e = elim (Bool-cases (seen mac s.all_ethernet)) [
  | inl f ↦
      let q : (s, ok false) ≡ (s', ok b) = rw f at e in
      subst (IsKnown sw mac) (ap (λ p. p.0) q) (record { there = h; known = f })
  | inr f ↦ elim (Option-cases (get sw s.table)) [
    | inl g ↦
        let q : (s, err key_error) ≡ (s', ok b) = rw (g, learn_mac) at (rw f at e) in
        let bad : err key_error ≡ ok b = ap (λ p. p.1) q in cc
    | inr (macs, g) ↦
        let q : (learned sw mac pt macs s, ok true) ≡ (s', ok b) =
          rw (g, learn_mac) at (rw f at e) in
        subst (IsKnown sw mac) (ap (λ p. p.0) q)
          (record { there = h; known = seen-append mac s.all_ethernet })
  ]
]
  where
    learned : ℕ → Option Text → ℕ → List (Option Text × ℕ) → State → State
    learned sw mac pt macs s = record s {
      table = put sw (put_mac mac pt macs) s.table;
      all_ethernet = s.all_ethernet ++ mac ∷ [];
    }

again :
    (sw pt : ℕ) (s s' : State) (b : Bool) (r : Result Packet)
    → learn_parsed sw pt (ensure sw s) r ≡ (s', ok b)
    → learn_parsed sw pt (ensure sw s') r ≡ (s', ok false)
again sw pt s s' b (ok pkt) e =
    let k = learn_mac-IsKnown sw pkt.eth_src pt (ensure sw s) s' b (ensure-topo sw s) e in
    ap (learn_mac sw pkt.eth_src pt) (ensure-known sw s' k.there)
    ∙ learn_mac-seen sw pkt.eth_src pt s' k.known
again sw pt s s' b (err x) e = let bad : err x ≡ ok b = ap (λ p. p.1) e in cc

-- If learning from a packet returns, learning from it once more changes nothing and asks for no
-- update of the policy.
pub learn_again :
    (parse : Text → List Protocol) (sw : ℕ) (raw_data : Text) (pt : ℕ) (s s' : State) (b : Bool)
    → learn parse sw raw_data pt s ≡ (s', ok b)
    → learn parse sw raw_data pt s' ≡ (s', ok false)
unfolding learn
learn_again parse sw raw_data pt s s' b e = again sw pt s s' b (from_payload parse sw pt raw_data) e
