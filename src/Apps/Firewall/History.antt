-- ===== src/Apps/Firewall/History.antt =====
-- lang/python/frenetic/examples/firewall.py: what versions 2 and 3 let through was asked for by a
-- trusted host and answered.
use frenetic.Base.{
  ℕ, Bool, true, false, ◌&&◌, ◌||◌, ◌≡◌, refl, ◌∙◌, List, [], ◌∷◌, Result, ok, err, arith, All,
  All-append, any, ◌==◌, Bool-cases, inl, inr, leb,
}
use frenetic.Base.Text.{Text}
use frenetic.Packet.Defs.{Packet}
use frenetic.Apps.Firewall.State.{
  Conn, Allowed, State, init, same_conn, contains, remove, label, bump, allow, add_pending,
  remove_pending,
}
use frenetic.Apps.Firewall.Handlers.{
  entry, forth, back, is_outgoing, packet_in, count_of, clean_callback, expire,
}
use frenetic.Apps.Firewall.Safety.{IsTwoPhase, same_conn_refl, packet_in-state, state_v2}
use frenetic.Apps.Firewall.Entries.{
  Each, Each-remove, Each-count_of, Each-drop_expired, Each-contains, Each-add_pending,
  add_pending-allowed, add_pending-trusted_ips, add_pending-version,
}

-- What happens to the firewall: a packet, a count that is read for an entry, or a clean-up.
pub data Event : Type 0 where
  packet : Packet → ℕ → Event
  count : Allowed → ℕ → Bool → Event
  clean : ℕ → Event

-- An exception in the callback leaves the state as it was.
abbrev pub counted : State → Result (State × Bool) → State
counted s (ok (s', should_clean)) = s'
counted s (err e) = s

unfoldable pub step : State → Event → State
step s (packet pkt now) = (packet_in s pkt now).state
step s (count a n should_clean) = counted s (clean_callback s a n should_clean)
step s (clean now) = expire s now

unfoldable pub run : State → List Event → State
unfolding step
run s [] = s
run s (e ∷ es) = run (step s e) es

-- The event is a packet of the connection from a trusted to an untrusted address.
abbrev pub asks : List Text → Conn → Event → Bool
asks ips c (packet pkt now) = same_conn (forth pkt) c && is_outgoing ips (forth pkt)
asks ips c _ = false

-- The event is a packet that goes the connection's other way.
abbrev pub answers : Conn → Event → Bool
answers c (packet pkt now) = same_conn (back pkt) c
answers c _ = false

module _ (ips : List Text) (I J : Conn → Type 0) where
  record IsSafe (s : State) : Type 0 where
    ips_kept : s.trusted_ips ≡ ips
    two_phase : IsTwoPhase s
    pending_asked : Each I s.pending
    allowed_asked : Each I s.allowed
    allowed_answered : Each J s.allowed

  -- What an event contributes.
  record Supports (e : Event) : Type 0 where
    asked : (c : Conn) → asks ips c e ≡ true → I c
    answered : (c : Conn) → answers c e ≡ true → J c

  -- A packet that goes out asks for its connection.
  outgoing-IsSafe :
      (s : State) (pkt : Packet) (now : ℕ)
      → Supports (packet pkt now)
      → IsSafe s
      → is_outgoing s.trusted_ips (forth pkt) ≡ true
      → IsSafe (add_pending (entry (forth pkt) (label s) now) (bump s))
  outgoing-IsSafe s pkt now u v out =
      let a = entry (forth pkt) (label s) now in
      let out' : is_outgoing ips (forth pkt) ≡ true = rw v.ips_kept at out in
      record {
        ips_kept = add_pending-trusted_ips a (bump s) ∙ v.ips_kept;
        two_phase = rw (add_pending-version a (bump s)) v.two_phase;
        pending_asked =
            Each-add_pending I a (bump s) v.pending_asked
              (u.asked (forth pkt) (rw (same_conn_refl (forth pkt)) out'));
        allowed_asked = rw (add_pending-allowed a (bump s)) v.allowed_asked;
        allowed_answered = rw (add_pending-allowed a (bump s)) v.allowed_answered;
      }

  -- A packet that answers a pending connection lets it through.
  answer-IsSafe :
      (s : State) (pkt : Packet) (now : ℕ)
      → Supports (packet pkt now)
      → IsSafe s
      → contains (back pkt) s.pending ≡ true
      → IsSafe (
          allow (entry (back pkt) (label (bump s)) now) (remove_pending (back pkt) (bump (bump s))))
  answer-IsSafe s pkt now u v known =
      let a = entry (back pkt) (label (bump s)) now in
      record {
        ips_kept = v.ips_kept;
        two_phase = v.two_phase;
        pending_asked = Each-remove I (back pkt) s.pending v.pending_asked;
        allowed_asked =
            All-append (λ a. I a.conn) s.allowed (a ∷ []) v.allowed_asked
              (Each-contains I (back pkt) s.pending v.pending_asked known, tt);
        allowed_answered =
            All-append (λ a. J a.conn) s.allowed (a ∷ []) v.allowed_answered
              (u.answered (back pkt) (same_conn_refl (back pkt)), tt);
      }

  state_v2-IsSafe :
      (s : State) (pkt : Packet) (now : ℕ)
      → Supports (packet pkt now)
      → IsSafe s
      → IsSafe (state_v2 s pkt now)
  unfolding state_v2
  state_v2-IsSafe s pkt now u v = elim (Bool-cases (is_outgoing s.trusted_ips (forth pkt))) [
    | inl out ↦ rw out (outgoing-IsSafe s pkt now u v out)
    | inr other ↦ elim (Bool-cases (contains (back pkt) s.pending)) [
      | inl known ↦ rw other (rw known (answer-IsSafe s pkt now u v known))
      | inr unknown ↦ rw other (
          rw unknown (record {
            ips_kept = v.ips_kept;
            two_phase = v.two_phase;
            pending_asked = v.pending_asked;
            allowed_asked = v.allowed_asked;
            allowed_answered = v.allowed_answered;
          }))
    ]
  ]

  with_allowed :
      (s : State) (xs : List Allowed)
      → IsSafe s
      → Each I xs
      → Each J xs
      → IsSafe (record s { allowed = xs })
  with_allowed s xs v i j = record {
    ips_kept = v.ips_kept;
    two_phase = v.two_phase;
    pending_asked = v.pending_asked;
    allowed_asked = i;
    allowed_answered = j;
  }

  clean_callback-IsSafe :
      (s : State) (a : Allowed) (n : ℕ) (b : Bool)
      → IsSafe s
      → IsSafe (counted s (clean_callback s a n b))
  unfolding clean_callback
  clean_callback-IsSafe s a n b v = elim (Bool-cases (leb a.last_count n)) [
    | inl le ↦ elim (Bool-cases (a.last_count == n)) [
      | inl stale ↦ elim (Bool-cases (contains a.conn s.allowed)) [
        | inl there ↦ rw le (
            rw stale (
              rw there (
                with_allowed s (remove a.conn s.allowed) v
                  (Each-remove I a.conn s.allowed v.allowed_asked)
                  (Each-remove J a.conn s.allowed v.allowed_answered))))
        | inr gone ↦ rw le (rw stale (rw gone v))
      ]
      | inr fresh ↦ rw le (
          rw fresh (
            with_allowed s (count_of a.conn n s.allowed) v
              (Each-count_of I a.conn n s.allowed v.allowed_asked)
              (Each-count_of J a.conn n s.allowed v.allowed_answered)))
    ]
    | inr gt ↦ rw gt v
  ]

  step-IsSafe : (s : State) (e : Event) → Supports e → IsSafe s → IsSafe (step s e)
  unfolding step
  step-IsSafe s (packet pkt now) u v =
      rw (packet_in-state s pkt now v.two_phase) (state_v2-IsSafe s pkt now u v)
  step-IsSafe s (count a n b) u v = clean_callback-IsSafe s a n b v
  step-IsSafe s (clean now) u v = record {
    ips_kept = v.ips_kept;
    two_phase = v.two_phase;
    pending_asked = Each-drop_expired I now s.pending v.pending_asked;
    allowed_asked = v.allowed_asked;
    allowed_answered = v.allowed_answered;
  }

  run-IsSafe : (s : State) (es : List Event) → All Supports es → IsSafe s → IsSafe (run s es)
  unfolding run
  run-IsSafe s [] u v = v
  run-IsSafe s (e ∷ es) u v = run-IsSafe (step s e) es u.1 (step-IsSafe s e u.0 v)

-- Some event of the history asks for the connection, or answers it.
abbrev pub Asked : List Text → List Event → Conn → Type 0
Asked ips es c = any (asks ips c) es ≡ true

abbrev pub Answered : List Event → Conn → Type 0
Answered es c = any (answers c) es ≡ true

-- An event of a history supports what the history does.
Supports-later :
    (ips : List Text) (e : Event) (es later : List Event)
    → All (Supports ips (Asked ips es) (Answered es)) later
    → All (Supports ips (Asked ips (e ∷ es)) (Answered (e ∷ es))) later
Supports-later ips e es [] h = tt
Supports-later ips e es (f ∷ later) h = (
  record {
    asked = λ c a. ground (arith, h.0.asked c a);
    answered = λ c a. ground (arith, h.0.answered c a);
  },
  Supports-later ips e es later h.1,
)

Supports-self :
    (ips : List Text) (es : List Event) → All (Supports ips (Asked ips es) (Answered es)) es
Supports-self ips [] = tt
Supports-self ips (e ∷ es) = (
  record { asked = λ c a. rw a refl; answered = λ c a. rw a refl },
  Supports-later ips e es es (Supports-self ips es),
)

-- In versions 2 and 3, from the start and whatever happens, each allowed connection was asked for
-- by a packet from a trusted to an untrusted address, and answered by a packet of its other way.
pub run-allowed :
    (ips : List Text) (version : ℕ) (es : List Event)
    → (version == 2 || version == 3) ≡ true
    → All (λ a. Asked ips es a.conn × Answered es a.conn) (run (init ips version) es).allowed
run-allowed ips version es h =
    let v =
      run-IsSafe ips (Asked ips es) (Answered es) (init ips version) es (Supports-self ips es)
        (record {
          ips_kept = refl;
          two_phase = h;
          pending_asked = tt;
          allowed_asked = tt;
          allowed_answered = tt;
        }) in
    both _ v.allowed_asked v.allowed_answered
  where
    both :
        (xs : List Allowed)
        → Each (Asked ips es) xs
        → Each (Answered es) xs
        → All (λ a. Asked ips es a.conn × Answered es a.conn) xs
    both [] i j = tt
    both (a ∷ xs) i j = ((i.0, j.0), both xs i.1 j.1)
