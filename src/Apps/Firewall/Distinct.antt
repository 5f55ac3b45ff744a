-- ===== src/Apps/Firewall/Distinct.antt =====
-- lang/python/frenetic/examples/firewall.py: versions 2 and 3 never hold a connection twice.
use frenetic.Base.{
  ℕ, Bool, true, false, ◌&&◌, ◌||◌, ◌≡◌, refl, sym, ap, ◌∙◌, List, [], ◌∷◌, ◌++◌, arith, ◌==◌,
  Bool-cases, inl, inr, leb,
}
use frenetic.Base.Text.{Text}
use frenetic.Packet.Defs.{Packet}
use frenetic.Apps.Firewall.State.{
  Conn, Allowed, State, init, same_conn, contains, remove, label, bump, allow, add_pending,
  remove_pending,
}
use frenetic.Apps.Firewall.Handlers.{entry, forth, back, is_outgoing, count_of, clean_callback}
use frenetic.Apps.Firewall.Safety.{IsTwoPhase, same_conn→eq, packet_in-state, state_v2}
use frenetic.Apps.Firewall.History.{Event, packet, count, clean, counted, step, run}
use frenetic.Apps.Firewall.Apart.{
  AreApart, contains-append, append_one-AreApart, contains-remove, remove-AreApart,
  contains-count_of, count_of-AreApart, contains-drop_expired, drop_expired-AreApart,
}

-- No connection is in both lists.
abbrev pub AreDisjoint : List Allowed → List Allowed → Type 0
AreDisjoint xs ys = (c : Conn) → (contains c xs && contains c ys) ≡ false

-- The version is 2 or 3, and each connection is in at most one of the
-- two lists, and there once.
pub record IsDistinct (s : State) : Type 0 where
  pub two_phase : IsTwoPhase s
  pub allowed_apart : AreApart s.allowed
  pub pending_apart : AreApart s.pending
  pub disjoint : AreDisjoint s.allowed s.pending

-- A connection that is in neither list is added to one of them.
append_one-AreDisjoint :
    (a : Allowed) (xs ys : List Allowed)
    → contains a.conn xs ≡ false
    → AreDisjoint xs ys
    → AreDisjoint xs (ys ++ a ∷ [])
unfolding contains
append_one-AreDisjoint a xs ys h d c = elim (Bool-cases (same_conn a.conn c)) [
  | inl e ↦
      let k : contains c xs ≡ false = ap (λ y. contains y xs) (sym (same_conn→eq a.conn c e)) ∙ h in
      rw k refl
  | inr e ↦ rw (contains-append c ys (a ∷ [])) (ground (arith, d c))
]

add_pending-IsDistinct : (a : Allowed) (s : State) → IsDistinct s → IsDistinct (add_pending a s)
unfolding add_pending
add_pending-IsDistinct a s v = elim (Bool-cases (contains a.conn s.allowed)) [
  | inl e ↦ rw e v
  | inr e ↦ elim (Bool-cases (contains a.conn s.pending)) [
    | inl f ↦ rw e (rw f v)
    | inr f ↦ rw e (
        rw f (record {
          two_phase = v.two_phase;
          allowed_apart = v.allowed_apart;
          pending_apart = append_one-AreApart a s.pending f v.pending_apart;
          disjoint = append_one-AreDisjoint a s.allowed s.pending e v.disjoint;
        }))
  ]
]

bump-IsDistinct : (s : State) → IsDistinct s → IsDistinct (bump s)
bump-IsDistinct s v = record {
  two_phase = v.two_phase;
  allowed_apart = v.allowed_apart;
  pending_apart = v.pending_apart;
  disjoint = v.disjoint;
}

-- A pending connection becomes an allowed one.
answer-IsDistinct :
    (a : Allowed) (s : State)
    → contains a.conn s.pending ≡ true
    → IsDistinct s
    → IsDistinct (allow a (remove_pending a.conn s))
unfolding contains
answer-IsDistinct a s known v =
    let free : contains a.conn s.allowed ≡ false = ground (arith, v.disjoint a.conn) in
    record {
      two_phase = v.two_phase;
      allowed_apart = append_one-AreApart a s.allowed free v.allowed_apart;
      pending_apart = remove-AreApart a.conn s.pending v.pending_apart;
      disjoint = λ c.
          rw (contains-append c s.allowed (a ∷ [])) (
            rw (contains-remove a.conn c s.pending v.pending_apart) (ground (arith, v.disjoint c)));
    }

with_allowed :
    (s : State) (xs : List Allowed)
    → IsDistinct s
    → AreApart xs
    → ((c : Conn) → contains c xs ≡ true → contains c s.allowed ≡ true)
    → IsDistinct (record s { allowed = xs })
with_allowed s xs v u sub = record {
  two_phase = v.two_phase;
  allowed_apart = u;
  pending_apart = v.pending_apart;
  disjoint = λ c. ground (arith, v.disjoint c, sub c);
}

state_v2-IsDistinct :
    (s : State) (pkt : Packet) (now : ℕ) → IsDistinct s → IsDistinct (state_v2 s pkt now)
unfolding state_v2
state_v2-IsDistinct s pkt now v = elim (Bool-cases (is_outgoing s.trusted_ips (forth pkt))) [
  | inl out ↦
      rw out
        (add_pending-IsDistinct (entry (forth pkt) (label s) now) (bump s) (bump-IsDistinct s v))
  | inr other ↦ elim (Bool-cases (contains (back pkt) s.pending)) [
    | inl known ↦ rw other (
        rw known (
          answer-IsDistinct (entry (back pkt) (label (bump s)) now) (bump (bump s)) known
            (bump-IsDistinct (bump s) (bump-IsDistinct s v))))
    | inr unknown ↦ rw other (rw unknown (bump-IsDistinct (bump s) (bump-IsDistinct s v)))
  ]
]

clean_callback-IsDistinct :
    (s : State) (a : Allowed) (n : ℕ) (b : Bool)
    → IsDistinct s
    → IsDistinct (counted s (clean_callback s a n b))
unfolding clean_callback
clean_callback-IsDistinct s a n b v = elim (Bool-cases (leb a.last_count n)) [
  | inl le ↦ elim (Bool-cases (a.last_count == n)) [
    | inl stale ↦ elim (Bool-cases (contains a.conn s.allowed)) [
      | inl there ↦ rw le (
          rw stale (
            rw there (
              with_allowed s (remove a.conn s.allowed) v
                (remove-AreApart a.conn s.allowed v.allowed_apart)
                (λ c h.
                  let r = contains-remove a.conn c s.allowed v.allowed_apart in ground arith))))
      | inr gone ↦ rw le (rw stale (rw gone v))
    ]
    | inr fresh ↦ rw le (
        rw fresh (
          with_allowed s (count_of a.conn n s.allowed) v
            (count_of-AreApart a.conn n s.allowed v.allowed_apart)
            (λ c h. sym (contains-count_of a.conn c n s.allowed) ∙ h)))
  ]
  | inr gt ↦ rw gt v
]

step-IsDistinct : (s : State) (e : Event) → IsDistinct s → IsDistinct (step s e)
unfolding step
step-IsDistinct s (packet pkt now) v =
    rw (packet_in-state s pkt now v.two_phase) (state_v2-IsDistinct s pkt now v)
step-IsDistinct s (count a n b) v = clean_callback-IsDistinct s a n b v
step-IsDistinct s (clean now) v = record {
  two_phase = v.two_phase;
  allowed_apart = v.allowed_apart;
  pending_apart = drop_expired-AreApart now s.pending v.pending_apart;
  disjoint = λ c. ground (arith, v.disjoint c, contains-drop_expired c now s.pending);
}

run-keeps : (s : State) (es : List Event) → IsDistinct s → IsDistinct (run s es)
unfolding run
run-keeps s [] v = v
run-keeps s (e ∷ es) v = run-keeps (step s e) es (step-IsDistinct s e v)

-- In versions 2 and 3, from the start and whatever happens, no connection is twice among the allowed
-- ones, none is twice among the pending ones, and none is both allowed and pending.
pub run-IsDistinct :
    (ips : List Text) (version : ℕ) (es : List Event)
    → (version == 2 || version == 3) ≡ true
    → IsDistinct (run (init ips version) es)
unfolding contains
run-IsDistinct ips version es h =
    run-keeps (init ips version) es
      (record { two_phase = h; allowed_apart = tt; pending_apart = tt; disjoint = λ c. refl })
