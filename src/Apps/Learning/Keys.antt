-- ===== src/Apps/Learning/Keys.antt =====
-- lang/python/frenetic/examples/learning.py: the two dictionaries have the same switches, so no handler
-- misses a key.
use frenetic.Base.{
  ℕ, true, false, ◌≡◌, refl, ◌∙◌, List, [], ◌∷◌, Option, none, some, Result, ok, err, arith,
  is_some, any, failure, sym, ◌==◌, if◌then◌else◌, Bool-cases, Option-cases, inl, inr,
}
use frenetic.Base.Text.{Text}
use frenetic.Packet.Defs.{Packet, Protocol}
use frenetic.Packet.Decode.{from_payload}
use frenetic.Apps.Learning.Dict.{Dict, get, put, delete, get-put, get-delete}
use frenetic.Apps.Learning.State.{
  State, init, ensure, seen, learn_mac, learn_parsed, learn, switch_up, switch_down, port_up,
  remove_port, port_down,
}

-- `topo` and `table` have the same keys.
pub record IsValid (s : State) : Type 0 where
  pub same : (k : ℕ) → is_some (get k s.topo) ≡ is_some (get k s.table)

pub data Event : Type 0 where
  packet : ℕ → Text → ℕ → Event
  up : ℕ → List ℕ → Event
  down : ℕ → Event
  port_added : ℕ → ℕ → Event
  port_lost : ℕ → ℕ → Event

unfoldable pub step : (Text → List Protocol) → Event → State → State
step parse (packet sw raw_data pt) s = (learn parse sw raw_data pt s).0
step parse (up sw ports) s = switch_up sw ports s
step parse (down sw) s = switch_down sw s
step parse (port_added sw pt) s = port_up sw pt s
step parse (port_lost sw pt) s = (port_down sw pt s).0

unfoldable pub run : (Text → List Protocol) → List Event → State → State
unfolding step
run parse [] s = s
run parse (e ∷ es) s = run parse es (step parse e s)

is_some-put {ℓ} :
    {V : Type ℓ} (k j : ℕ) (v : V) (d : Dict V)
    → is_some (get k (put j v d)) ≡ (if j == k then true else is_some (get k d))
is_some-put k j v d = rw (get-put k j v d) (ground arith)

is_some-delete {ℓ} :
    {V : Type ℓ} (k j : ℕ) (d : Dict V)
    → is_some (get k (delete j d)) ≡ (if j == k then false else is_some (get k d))
is_some-delete k j d = rw (get-delete k j d) (ground arith)

ensure-IsValid : (sw : ℕ) (s : State) → IsValid s → IsValid (ensure sw s)
unfolding ensure
ensure-IsValid sw s v = elim (Bool-cases (is_some (get sw s.topo))) [
  | inl e ↦ rw e v
  | inr e ↦ rw e (record {
    same = λ k.
        rw (is_some-put k sw [] s.topo) (rw (is_some-put k sw [] s.table) (rw (v.same k) refl));
  })
]

pub ensure-topo : (sw : ℕ) (s : State) → is_some (get sw (ensure sw s).topo) ≡ true
unfolding ensure
ensure-topo sw s = elim (Bool-cases (is_some (get sw s.topo))) [
  | inl e ↦ rw e e
  | inr e ↦ rw e (is_some-put sw sw [] s.topo ∙ ground arith)
]

learn_mac-IsValid :
    (sw : ℕ) (mac : Option Text) (pt : ℕ) (s : State)
    → IsValid s
    → IsValid (learn_mac sw mac pt s).0
unfolding learn_mac
learn_mac-IsValid sw mac pt s v = elim (Bool-cases (seen mac s.all_ethernet)) [
  | inl e ↦ rw e v
  | inr e ↦ elim (Option-cases (get sw s.table)) [
    | inl f ↦ rw e (rw f v)
    | inr (macs, f) ↦ rw e (rw f (record { same = λ k. v.same k ∙ known k _ macs f }))
  ]
]
  where
    known :
        (k : ℕ) (w macs : List (Option Text × ℕ))
        → get sw s.table ≡ some macs
        → is_some (get k s.table) ≡ is_some (get k (put sw w s.table))
    known k w macs f = rw (is_some-put k sw w s.table) (grind (arith, f))

learn_parsed-IsValid :
    (sw pt : ℕ) (s : State) (r : Result Packet) → IsValid s → IsValid (learn_parsed sw pt s r).0
learn_parsed-IsValid sw pt s (ok pkt) v = learn_mac-IsValid sw pkt.eth_src pt s v
learn_parsed-IsValid sw pt s (err e) v = v

learn-IsValid :
    (parse : Text → List Protocol) (sw : ℕ) (raw_data : Text) (pt : ℕ) (s : State)
    → IsValid s
    → IsValid (learn parse sw raw_data pt s).0
unfolding learn
learn-IsValid parse sw raw_data pt s v =
    learn_parsed-IsValid sw pt (ensure sw s) (from_payload parse sw pt raw_data)
      (ensure-IsValid sw s v)

switch_up-IsValid :
    (sw : ℕ) (ports : List ℕ) (s : State) → IsValid s → IsValid (switch_up sw ports s)
unfolding switch_up
switch_up-IsValid sw ports s v = record {
  same = λ k.
      rw (is_some-put k sw ports s.topo) (rw (is_some-put k sw [] s.table) (rw (v.same k) refl));
}

switch_down-IsValid : (sw : ℕ) (s : State) → IsValid s → IsValid (switch_down sw s)
unfolding switch_down
switch_down-IsValid sw s v = elim (Bool-cases (is_some (get sw s.topo))) [
  | inl e ↦ rw e (record {
    same = λ k.
        rw (is_some-delete k sw s.topo) (rw (is_some-delete k sw s.table) (rw (v.same k) refl));
  })
  | inr e ↦ rw e v
]

-- A switch that is there may get other ports.
put-IsValid :
    (sw : ℕ) (ports : List ℕ) (s : State)
    → is_some (get sw s.topo) ≡ true
    → IsValid s
    → IsValid (record s { topo = put sw ports s.topo })
put-IsValid sw ports s e v = record {
  same = λ k. rw (is_some-put k sw ports s.topo) (grind (arith, v.same k, v.same sw, e));
}

port_up-IsValid : (sw pt : ℕ) (s : State) → IsValid s → IsValid (port_up sw pt s)
unfolding port_up
port_up-IsValid sw pt s v =
    put-IsValid sw _ (ensure sw s) (ensure-topo sw s) (ensure-IsValid sw s v)

port_down-IsValid : (sw pt : ℕ) (s : State) → IsValid s → IsValid (port_down sw pt s).0
unfolding port_down
port_down-IsValid sw pt s v = elim (Option-cases (get sw s.topo)) [
  | inl e ↦ rw (e, port_down) v
  | inr (ports, e) ↦ elim (Bool-cases (any (λ p. p == pt) ports)) [
    | inl f ↦ rw (e, port_down) (rw f (put-IsValid sw (remove_port pt ports) s (rw e refl) v))
    | inr f ↦ rw (e, port_down) (rw f v)
  ]
]

step-IsValid :
    (parse : Text → List Protocol) (e : Event) (s : State) → IsValid s → IsValid (step parse e s)
unfolding step
step-IsValid parse (packet sw raw_data pt) s v = learn-IsValid parse sw raw_data pt s v
step-IsValid parse (up sw ports) s v = switch_up-IsValid sw ports s v
step-IsValid parse (down sw) s v = switch_down-IsValid sw s v
step-IsValid parse (port_added sw pt) s v = port_up-IsValid sw pt s v
step-IsValid parse (port_lost sw pt) s v = port_down-IsValid sw pt s v

run-IsValid :
    (parse : Text → List Protocol) (es : List Event) (s : State)
    → IsValid s
    → IsValid (run parse es s)
unfolding run
run-IsValid parse [] s v = v
run-IsValid parse (e ∷ es) s v = run-IsValid parse es (step parse e s) (step-IsValid parse e s v)

-- The exception of learn_mac, where the switch is there, is none.
learn_mac-failure :
    (sw : ℕ) (mac : Option Text) (pt : ℕ) (s : State)
    → is_some (get sw s.table) ≡ true
    → failure (learn_mac sw mac pt s).1 ≡ none
unfolding learn_mac
learn_mac-failure sw mac pt s h = grind (arith, h)

learn_parsed-failure :
    (sw pt : ℕ) (s : State) (r : Result Packet)
    → is_some (get sw s.table) ≡ true
    → failure (learn_parsed sw pt s r).1 ≡ failure r
learn_parsed-failure sw pt s (ok pkt) h = learn_mac-failure sw pkt.eth_src pt s h
learn_parsed-failure sw pt s (err e) h = refl

init-IsValid : IsValid init
unfolding get
init-IsValid = record { same = λ k. refl }

-- From the start and after any handlers, learning from a packet raises only what from_payload raises
-- for it: no switch is missed in one of the two dictionaries.
pub failure-learn :
    (parse : Text → List Protocol) (es : List Event) (sw : ℕ) (raw_data : Text) (pt : ℕ)
    → failure (learn parse sw raw_data pt (run parse es init)).1
      ≡ failure (from_payload parse sw pt raw_data)
unfolding learn
failure-learn parse es sw raw_data pt =
    let s = run parse es init in
    let v = ensure-IsValid sw s (run-IsValid parse es init init-IsValid) in
    learn_parsed-failure sw pt (ensure sw s) (from_payload parse sw pt raw_data)
      (sym (v.same sw) ∙ ensure-topo sw s)
