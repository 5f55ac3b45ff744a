-- ===== src/Apps/Repeater/Valid.antt =====
-- lang/python/frenetic/examples/repeater.py: the handlers keep the topology valid.
use frenetic.Base.{
  ℕ, true, false, ◌||◌, ◌≡◌, refl, List, [], ◌∷◌, ◌++◌, Option, none, some, any, arith, ◌==◌,
  Bool-cases, inl, inr,
}
use frenetic.Syntax.Sugar.Loops.{is_port}
use frenetic.Apps.Learning.Dict.{get, put, delete}
use frenetic.Apps.Learning.State.{remove_port}
use frenetic.Apps.Repeater.State.{Topo, keys, switch_up, switch_down, port_up, port_down}
use frenetic.Apps.Repeater.Sends.{ArePorts, IsValid, ports_at, ports_at-ArePorts}

any-append_one :
    (p q : ℕ) (ns : List ℕ) → any (λ k. k == p) (ns ++ q ∷ []) ≡ (any (λ k. k == p) ns || q == p)
any-append_one p q [] = ground arith
any-append_one p q (n ∷ ns) = ground (arith, any-append_one p q ns)

append_one-ArePorts :
    (p : ℕ) (ns : List ℕ)
    → is_port p ≡ true
    → any (λ k. k == p) ns ≡ false
    → ArePorts ns
    → ArePorts (ns ++ p ∷ [])
append_one-ArePorts p [] i a h = (rw i refl, (refl, tt))
append_one-ArePorts p (n ∷ ns) i a (h, (u, us)) =
    let (h', us') = append_one-ArePorts p ns i (ground arith) (ground arith, us) in
    (ground arith, (rw (any-append_one n p ns) (ground arith), us'))

any-remove_port :
    (p q : ℕ) (ns : List ℕ)
    → any (λ k. k == q) ns ≡ false
    → any (λ k. k == q) (remove_port p ns) ≡ false
unfolding remove_port
any-remove_port p q [] h = refl
any-remove_port p q (n ∷ ns) h = ground (arith, any-remove_port p q ns)

remove_port-ArePorts : (p : ℕ) (ns : List ℕ) → ArePorts ns → ArePorts (remove_port p ns)
unfolding remove_port
remove_port-ArePorts p [] h = h
remove_port-ArePorts p (n ∷ ns) (h, (u, us)) = elim (Bool-cases (n == p)) [
  | inl e ↦ rw e (ground arith, us)
  | inr e ↦
      let (h', us') = remove_port-ArePorts p ns (ground arith, us) in
      rw e (ground arith, (any-remove_port p n ns u, us'))
]

any-keys-put :
    (k j : ℕ) (v : List ℕ) (topo : Topo)
    → any (λ i. i == j) (keys (put k v topo)) ≡ (any (λ i. i == j) (keys topo) || k == j)
unfolding put
any-keys-put k j v [] = ground arith
any-keys-put k j v ((i, w) ∷ topo) = elim (Bool-cases (i == k)) [
  | inl e ↦ rw e (ground arith)
  | inr e ↦ rw e (ground (arith, any-keys-put k j v topo))
]

put-IsValid :
    (k : ℕ) (v : List ℕ) (topo : Topo) → ArePorts v → IsValid topo → IsValid (put k v topo)
unfolding put
put-IsValid k v [] h t = record { unique = (refl, tt); ports = (h, tt) }
put-IsValid k v ((i, w) ∷ topo) h t = elim (Bool-cases (i == k)) [
  | inl e ↦ rw e (record { unique = t.unique; ports = (h, t.ports.1) })
  | inr e ↦
      let r = put-IsValid k v topo h (record { unique = t.unique.1; ports = t.ports.1 }) in
      rw e (record {
        unique = (rw (any-keys-put k i v topo) (let a = t.unique.0 in ground arith), r.unique);
        ports = (t.ports.0, r.ports);
      })
]

any-keys-delete :
    (k j : ℕ) (topo : Topo)
    → any (λ i. i == j) (keys topo) ≡ false
    → any (λ i. i == j) (keys (delete k topo)) ≡ false
unfolding delete
any-keys-delete k j [] h = refl
any-keys-delete k j ((i, w) ∷ topo) h = elim (Bool-cases (i == k)) [
  | inl e ↦ rw e (any-keys-delete k j topo (ground arith))
  | inr e ↦ rw e (ground (arith, any-keys-delete k j topo))
]

delete-IsValid : (k : ℕ) (topo : Topo) → IsValid topo → IsValid (delete k topo)
unfolding delete
delete-IsValid k [] t = t
delete-IsValid k ((i, w) ∷ topo) t =
    let r = delete-IsValid k topo (record { unique = t.unique.1; ports = t.ports.1 }) in
    elim (Bool-cases (i == k)) [
      | inl e ↦ rw e r
      | inr e ↦ rw e (record {
        unique = (any-keys-delete k i topo t.unique.0, r.unique);
        ports = (t.ports.0, r.ports);
      })
    ]

-- The events of a topology.
pub data Event : Type 0 where
  up : ℕ → List ℕ → Event
  down : ℕ → Event
  added : ℕ → ℕ → Event
  removed : ℕ → ℕ → Event

unfoldable pub step : Event → Topo → Topo
unfolding switch_up switch_down port_up port_down
step (up sw ports) topo = (switch_up sw ports topo).0
step (down sw) topo = (switch_down sw topo).0
step (added sw port) topo = (port_up sw port topo).0
step (removed sw port) topo = (port_down sw port topo).0

-- What the controller tells is true: the ports of a switch are ports, and a port that is added is a
-- port and was not there.
abbrev pub IsFit : Event → Topo → Type 0
IsFit (up sw ports) topo = ArePorts ports
IsFit (added sw port) topo =
    (is_port port ≡ true) × (any (λ p. p == port) (ports_at (get sw topo)) ≡ false)
IsFit _ topo = Unit

-- A handler that finds its switch, or does not.
module _ (sw : ℕ) (topo : Topo) (t : IsValid topo) where
  step-down : (o : Option (List ℕ)) → get sw topo ≡ o → IsValid (step (down sw) topo)
  unfolding step
  step-down none e = rw (e, step) t
  step-down (some ports) e = rw (e, step) (delete-IsValid sw topo t)

  step-added :
      (port : ℕ)
      → IsFit (added sw port) topo
      → (o : Option (List ℕ)) → get sw topo ≡ o
      → IsValid (step (added sw port) topo)
  unfolding step
  step-added port f none e = rw (e, step) t
  step-added port f (some ports) e =
      rw (e, step)
        (put-IsValid sw (ports ++ port ∷ []) topo
          (append_one-ArePorts port ports f.0 (rw e at f.1)
            (rw e at (ports_at-ArePorts sw topo t.ports)))
          t)

  step-removed :
      (port : ℕ) (o : Option (List ℕ)) → get sw topo ≡ o → IsValid (step (removed sw port) topo)
  unfolding step
  step-removed port none e = rw (e, step) t
  step-removed port (some ports) e =
      rw (e, step)
        (elim (Bool-cases (any (λ p. p == port) ports)) [
          | inl h ↦ rw h (
              put-IsValid sw (remove_port port ports) topo
                (remove_port-ArePorts port ports (rw e at (ports_at-ArePorts sw topo t.ports))) t)
          | inr h ↦ rw h t
        ])

pub step-IsValid : (e : Event) (topo : Topo) → IsFit e topo → IsValid topo → IsValid (step e topo)
unfolding step
step-IsValid (up sw ports) topo f t = put-IsValid sw ports topo f t
step-IsValid (down sw) topo f t = step-down sw topo t (get sw topo) refl
step-IsValid (added sw port) topo f t = step-added sw topo t port f (get sw topo) refl
step-IsValid (removed sw port) topo f t = step-removed sw topo t port (get sw topo) refl

-- A history of events.
unfoldable pub run : List Event → Topo → Topo
unfolding step
run [] topo = topo
run (e ∷ es) topo = run es (step e topo)

abbrev pub AreFit : List Event → Topo → Type 0
AreFit [] topo = Unit
AreFit (e ∷ es) topo = IsFit e topo × AreFit es (step e topo)

-- From a valid topology, any events that fit the topology at their time, missing switches and ports
-- included, leave a valid topology: no switch twice, and the ports of each are port numbers, none twice.
pub run-IsValid :
    (es : List Event) (topo : Topo) → AreFit es topo → IsValid topo → IsValid (run es topo)
unfolding run
run-IsValid [] topo f t = t
run-IsValid (e ∷ es) topo f t = run-IsValid es (step e topo) f.1 (step-IsValid e topo f.0 t)
