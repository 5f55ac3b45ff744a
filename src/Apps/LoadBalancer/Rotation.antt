-- ===== src/Apps/LoadBalancer/Rotation.antt =====
-- lang/python/frenetic/examples/load_balancer.py: the servers take turns, and a connection stays
-- with its server.
use native.Mathlib.Nat.{mod-mod, mod-add-mod, mod-lt, mod-eq_of_lt}
use mathlib.Core.Path.{ap₂}
use frenetic.Base.{
  ℕ, zero, suc, ◌+◌, ◌%◌, ◌<◌, true, ◌≡◌, refl, sym, ap, ◌∙◌, List, [], ◌∷◌, ◌++◌, map, Option,
  none, some, Result, ok, ◌>>=◌, arith, All, All-append, length, get_elem?, any, ◌==◌,
  if◌then◌else◌, ==_refl, Option-cases, inl, inr, Bool-cases,
}
use frenetic.Apps.LoadBalancer.Defs.{
  State, advance, same_source, find, next_server_port, new_connection,
}

-- The port is one of the servers'.
abbrev pub IsServer : List ℕ → ℕ → Type 0
IsServer ports p = any (λ q. q == p) ports ≡ true

-- The turn is within the list of servers, and every connection has one of them.
pub record IsValid (s : State) : Type 0 where
  pub turn : s.next_server_index < length s.server_ports
  pub served : All (λ c. IsServer s.server_ports c.1) s.connections

get_elem?-lt :
    (ps : List ℕ) (i : ℕ) → i < length ps → (p : ℕ) × (get_elem? ps i ≡ some p) × IsServer ps p
get_elem?-lt [] i h = absurd (omega arith)
get_elem?-lt (p ∷ ps) zero h = (p, refl, rw (==_refl p) refl)
get_elem?-lt (p ∷ ps) (suc i) h =
    let (q, e, m) = get_elem?-lt ps i (omega arith) in (q, e, ground arith)

advance-length : (n : ℕ) (ps : List ℕ) → 0 < length ps → advance n ps ≡ ok ((n + 1) % length ps)
advance-length n [] h = absurd (omega arith)
advance-length n (p ∷ ps) h = refl

-- The state after a turn.
abbrev turned : State → State
turned s = record s { next_server_index = (s.next_server_index + 1) % length s.server_ports }

-- A turn: the server whose index it is, and the index that follows.
pub next_server_port-eq :
    (s : State)
    → s.next_server_index < length s.server_ports
    → (p : ℕ) × (get_elem? s.server_ports s.next_server_index ≡ some p)
      × IsServer s.server_ports p
      × (next_server_port s ≡ ok (turned s, p))
unfolding next_server_port
next_server_port-eq s h =
    let (p, e, m) = get_elem?-lt s.server_ports s.next_server_index h in
    (p, e, m, rw (advance-length s.next_server_index s.server_ports (omega arith)) (rw e refl))

find-served :
    (ports : List ℕ) (k : Option ℕ) (m : List (Option ℕ × ℕ)) (p : ℕ)
    → All (λ c. IsServer ports c.1) m
    → find k m ≡ some p
    → IsServer ports p
unfolding find
find-served ports k [] p h e = cc
find-served ports k ((j, v) ∷ m) p h e = ground (arith, find-served ports k m p)

same_source_refl : (k : Option ℕ) → same_source k k ≡ true
same_source_refl none = refl
same_source_refl (some n) = ==_refl n

find-append :
    (j k : Option ℕ) (p : ℕ) (m : List (Option ℕ × ℕ))
    → find j (m ++ (k, p) ∷ [])
      ≡ (elim (find j m) [ some v ↦ some v | none ↦ if same_source k j then some p else none ])
unfolding find
find-append j k p [] = ground arith
find-append j k p ((i, v) ∷ m) = ground (arith, find-append j k p m)

new_connection-known :
    (k : Option ℕ) (s : State) (p : ℕ)
    → find k s.connections ≡ some p
    → new_connection k s ≡ ok (s, p)
unfolding new_connection
new_connection-known k s p e = rw (e, new_connection) refl

-- The state after a new source has got the server `p`.
abbrev assigned : Option ℕ → State → ℕ → State
assigned k s p = record s {
  next_server_index = (s.next_server_index + 1) % length s.server_ports;
  connections = s.connections ++ (k, p) ∷ [];
}

new_connection-fresh :
    (k : Option ℕ) (s : State)
    → s.next_server_index < length s.server_ports
    → find k s.connections ≡ none
    → (p : ℕ) × (get_elem? s.server_ports s.next_server_index ≡ some p)
      × IsServer s.server_ports p
      × (new_connection k s ≡ ok (assigned k s p, p))
unfolding new_connection
new_connection-fresh k s h e =
    let (p, g, m, n) = next_server_port-eq s h in (p, g, m, rw (e, new_connection) (rw n refl))

assigned-IsValid :
    (k : Option ℕ) (s : State) (p : ℕ)
    → IsValid s
    → IsServer s.server_ports p
    → IsValid (assigned k s p)
assigned-IsValid k s p v m = record {
  turn = mod-lt (s.next_server_index + 1) (omega (arith, v.turn));
  served =
      All-append (λ c. IsServer s.server_ports c.1) s.connections ((k, p) ∷ []) v.served (m, tt);
}

-- What a dictionary answers when `p` is added for the key `k`, if it had no answer for that key.
abbrev pub or_added : Option ℕ → ℕ → Option ℕ → Option ℕ → Option ℕ
or_added k p j (some v) = some v
or_added k p j none = if same_source k j then some p else none

find-assigned :
    (j k : Option ℕ) (s : State) (p : ℕ)
    → find j (assigned k s p).connections ≡ or_added k p j (find j s.connections)
find-assigned j k s p = find-append j k p s.connections ∙ ground arith

same_source→eq : (j k : Option ℕ) → same_source j k ≡ true → j ≡ k
same_source→eq none none h = refl
same_source→eq (some a) (some b) h = ground arith
same_source→eq none (some b) h = cc
same_source→eq (some a) none h = cc

find-known :
    (j k : Option ℕ) (m : List (Option ℕ × ℕ)) (p : ℕ)
    → find k m ≡ some p
    → find j m ≡ or_added k p j (find j m)
find-known j k m p e = elim (Option-cases (find j m)) [
  | inr (v, f) ↦ rw f refl
  | inl f ↦ elim (Bool-cases (same_source k j)) [
    | inl q ↦ let r : find j m ≡ some p = rw (same_source→eq k j q) at e in cc
    | inr q ↦ rw f (rw q refl)
  ]
]

find-assigned_self :
    (k : Option ℕ) (s : State) (p : ℕ)
    → find k s.connections ≡ none
    → find k (assigned k s p).connections ≡ some p
find-assigned_self k s p e =
    rw (find-append k k p s.connections) (rw e (rw (same_source_refl k) refl))

-- What `new_connection` promises of its result: a valid state, a port of one of the servers, the
-- same answer when the source comes again, and of the connections, those that were there and that
-- of the source.
pub record Keeps (k : Option ℕ) (s s' : State) (p : ℕ) : Type 0 where
  pub valid : IsValid s'
  pub is_server : IsServer s.server_ports p
  pub again : new_connection k s' ≡ ok (s', p)
  pub kept : (j : Option ℕ) → find j s'.connections ≡ or_added k p j (find j s.connections)

-- In a valid state `new_connection` returns, and keeps its promises.
pub new_connection-Keeps :
    (k : Option ℕ) (s : State)
    → IsValid s
    → (s' : State) × (p : ℕ) × (new_connection k s ≡ ok (s', p)) × Keeps k s s' p
new_connection-Keeps k s v = elim (Option-cases (find k s.connections)) [
  | inl fresh ↦
      let (p, g, m, e) = new_connection-fresh k s v.turn fresh in
      (
        assigned k s p,
        p,
        e,
        record {
          valid = assigned-IsValid k s p v m;
          is_server = m;
          again = new_connection-known k (assigned k s p) p (find-assigned_self k s p fresh);
          kept = λ j. find-assigned j k s p;
        },
      )
  | inr (p, known) ↦ (
    s,
    p,
    new_connection-known k s p known,
    record {
      valid = v;
      is_server = find-served s.server_ports k s.connections p v.served known;
      again = new_connection-known k s p known;
      kept = λ j. find-known j k s.connections p known;
    },
  )
]

-- The servers of a list of sources that come one after another.
unfoldable pub serve : List (Option ℕ) → State → Result (List ℕ)
serve [] s = ok []
serve (k ∷ ks) s = do (s', p) ← new_connection k s; ps ← serve ks s'; ok (p ∷ ps)

-- No source of the list has a connection or comes twice.
abbrev pub AreNew : List (Option ℕ) → List (Option ℕ × ℕ) → Type 0
AreNew [] m = Unit
AreNew (k ∷ ks) m = (find k m ≡ none) × ((p : ℕ) → AreNew ks (m ++ (k, p) ∷ []))

-- The entries of a list in a circle, `k` of them from the index `n` on.
abbrev pub circle : List ℕ → ℕ → ℕ → List (Option ℕ)
circle ports n zero = []
circle ports n (suc k) = get_elem? ports (n % length ports) ∷ circle ports (n + 1) k

circle-mod : (ports : List ℕ) (n k : ℕ) → circle ports (n % length ports) k ≡ circle ports n k
circle-mod ports n zero = refl
circle-mod ports n (suc k) = ap₂ ◌∷◌ (ap (get_elem? ports) (mod-mod n (length ports))) (
    sym (circle-mod ports (n % length ports + 1) k)
    ∙ ap (λ i. circle ports i k) (mod-add-mod n (length ports) 1)
    ∙ circle-mod ports (n + 1) k)

-- New sources are served in turn: from a valid state the servers of a list of new sources are the
-- entries of the list of servers, in a circle from the one whose turn it is.
pub serve-rotation :
    (ks : List (Option ℕ)) (s : State)
    → IsValid s
    → AreNew ks s.connections
    → (ps : List ℕ) × (serve ks s ≡ ok ps)
      × (map some ps ≡ circle s.server_ports s.next_server_index (length ks))
unfolding serve
serve-rotation [] s v h = ([], refl, refl)
serve-rotation (k ∷ ks) s v h =
    let (p, g, m, e) = new_connection-fresh k s v.turn h.0 in
    let (ps, r, turns) = serve-rotation ks (assigned k s p) (assigned-IsValid k s p v m) (h.1 p) in
    (
      p ∷ ps,
      rw e (rw r refl),
      ap₂ ◌∷◌ (sym g ∙ ap (get_elem? s.server_ports) (sym (mod-eq_of_lt v.turn)))
          (turns ∙ circle-mod s.server_ports (s.next_server_index + 1) (length ks)),
    )
