-- ===== src/Apps/Firewall/Sweep.antt =====
-- lang/python/frenetic/examples/firewall.py: a round of run_clean ends, and keeps the connections that
-- have been in use.
use mathlib.Core.List.{reverse, reverse-cons, reverse-reverse, append-nil, append_assoc}
use frenetic.Base.{
  ℕ, ◌≤◌, Bool, true, false, ◌||◌, ◌≡◌, refl, sym, ap, ◌∙◌, List, [], ◌∷◌, ◌++◌, map, ok, arith,
  All, All-reverse, any-reverse, ||-true, ||-false, any, ||_assoc, leb, ◌==◌, if◌then◌else◌,
  Bool-cases, inl, inr,
}
use frenetic.Apps.Firewall.State.{Conn, Allowed, State, contains}
use frenetic.Apps.Firewall.Safety.{update_then-state}
use frenetic.Apps.Firewall.Apart.{
  AreApart, contains-reverse, remove-middle, count_of-middle, contains-middle, reverse-AreApart,
}
use frenetic.Apps.Firewall.Handlers.{Message, done, update_then, clean_callback, expire}
use frenetic.Apps.Firewall.Cleaning.{
  start, idle, waiting, clean_next, clean_next_callback, answers, run_clean, Swept,
}

module _ (count : Conn → ℕ) where
  -- The controller has counted nothing since the last round.
  abbrev pub is_stale : Allowed → Bool
  is_stale a = a.last_count == count a.conn

  -- The entries that have been in use, with their new counts.
  abbrev pub used : List Allowed → List Allowed
  used [] = []
  used (a ∷ xs) = if is_stale a then used xs else record a { last_count = count a.conn } ∷ used xs

  used-append : (xs ys : List Allowed) → used (xs ++ ys) ≡ used xs ++ used ys
  used-append [] ys = refl
  used-append (x ∷ xs) ys = elim (Bool-cases (is_stale x)) [
    | inl e ↦ rw e (used-append xs ys)
    | inr e ↦ rw e (ap (λ l. record x { last_count = count x.conn } ∷ l) (used-append xs ys))
  ]

  -- The policy is sent if a connection has been taken out.
  abbrev pub news : State → Bool → List Message
  news s should_clean = if should_clean then (update_then s (done s [])).sent else []

  clean_callback-head :
      (s : State) (a : Allowed) (todo rest : List Allowed) (b : Bool)
      → contains a.conn todo ≡ false
      → a.last_count ≤ count a.conn
      → clean_callback (record s { allowed = reverse todo ++ a ∷ rest }) a (count a.conn) b
        ≡ ok (record s { allowed = reverse todo ++ (used (a ∷ []) ++ rest) }, b || is_stale a)
  unfolding clean_callback
  clean_callback-head s a todo rest b h le =
      let k : leb a.last_count (count a.conn) ≡ true = ground arith in
      let h' : contains a.conn (reverse todo) ≡ false = contains-reverse a.conn todo ∙ h in
      elim (Bool-cases (is_stale a)) [
        | inl e ↦ rw k (
            rw e (
              rw (contains-middle a (reverse todo) rest)
                (rw (remove-middle a (reverse todo) rest h') (rw (||-true b) refl))))
        | inr e ↦ rw k (
            rw e
              (rw (count_of-middle a (count a.conn) (reverse todo) rest h') (rw (||-false b) refl)))
      ]

  turn :
      (x : Allowed) (todo rest : List Allowed)
      → reverse (x ∷ todo) ++ rest ≡ reverse todo ++ x ∷ rest
  turn x todo rest = rw (reverse-cons x todo) (append_assoc (reverse todo) (x ∷ []) rest)

  used-last :
      (a : Allowed) (xs rest : List Allowed)
      → used (reverse xs) ++ (used (a ∷ []) ++ rest) ≡ used (reverse (a ∷ xs)) ++ rest
  used-last a xs rest =
      sym (append_assoc (used (reverse xs)) (used (a ∷ [])) rest)
      ∙ ap (λ l. l ++ rest)
          (sym (used-append (reverse xs) (a ∷ [])) ∙ ap used (sym (reverse-cons a xs)))

  -- The round has ended with the entries and the flag.
  abbrev pub ended : State → List Allowed → Bool → Swept
  ended s xs should_clean = record {
    state = record s { allowed = xs };
    round = idle;
    sent = news (record s { allowed = xs }) should_clean;
  }

  ended-callback :
      (s : State) (b : Bool)
      → (let (r, o) = clean_next_callback s [] b in
          record { state = o.state; round = r; sent = o.sent ++ [] })
        ≡ ended s s.allowed b
  unfolding clean_next_callback
  ended-callback s true =
      rw (update_then-state s (done s []) refl)
        (rw (append-nil (update_then s (done s [])).sent) refl)
  ended-callback s false = refl

  last :
      (s : State) (x : Allowed) (todo : List Allowed) (a : Allowed) (rest : List Allowed) (b : Bool)
      → ended s
          (used (reverse (x ∷ todo)) ++ (used (a ∷ []) ++ rest))
          ((b || is_stale a) || any is_stale (x ∷ todo))
        ≡ ended s (used (reverse (a ∷ x ∷ todo)) ++ rest) (b || any is_stale (a ∷ x ∷ todo))
  last s x todo a rest b =
      ap (λ l. ended s l ((b || is_stale a) || any is_stale (x ∷ todo)))
        (used-last a (x ∷ todo) rest)
      ∙ ap (ended s (used (reverse (a ∷ x ∷ todo)) ++ rest))
          (||_assoc b (is_stale a) (any is_stale (x ∷ todo)))

  go :
      (s : State) (a : Allowed) (todo rest : List Allowed) (b : Bool)
      → AreApart (a ∷ todo)
      → All (λ x. x.last_count ≤ count x.conn) (a ∷ todo)
      → answers
          (record s { allowed = reverse todo ++ a ∷ rest })
          (waiting a todo b)
          (map (λ x. count x.conn) (a ∷ todo))
        ≡ ended s (used (reverse (a ∷ todo)) ++ rest) (b || any is_stale (a ∷ todo))
  unfolding answers
  go s a [] rest b h le = rw (clean_callback-head s a [] rest b h.0 le.0) (
      ended-callback (record s { allowed = used (a ∷ []) ++ rest }) (b || is_stale a)
      ∙ ap (λ c. ended s (used (a ∷ []) ++ rest) (b || c)) (sym (||-false (is_stale a))))
  go s a (x ∷ todo) rest b h le = rw (clean_callback-head s a (x ∷ todo) rest b h.0 le.0) (
      ap
        (λ xs.
          answers (record s { allowed = xs }) (waiting x todo (b || is_stale a))
            (map (λ y. count y.conn) (x ∷ todo)))
        (turn x todo (used (a ∷ []) ++ rest))
      ∙ go s x todo (used (a ∷ []) ++ rest) (b || is_stale a) h.1 le.1
      ∙ last s x todo a rest b)

  from_start :
      (s : State) (todo : List Allowed)
      → AreApart todo
      → All (λ x. x.last_count ≤ count x.conn) todo
      → answers (record s { allowed = reverse todo }) (start todo) (map (λ x. count x.conn) todo)
        ≡ ended s (used (reverse todo)) (any is_stale todo)
  unfolding answers clean_next
  from_start s [] h le = refl
  from_start s (a ∷ todo) h le =
      ap
        (λ xs.
          answers (record s { allowed = xs }) (waiting a todo false)
            (map (λ y. count y.conn) (a ∷ todo)))
        (reverse-cons a todo)
      ∙ go s a todo [] false h le
      ∙ ap (λ l. ended s l (any is_stale (a ∷ todo))) (append-nil _)

  -- A round of run_clean, on connections of which none is twice and none has a count above the
  -- controller's, ends with as many answers as there are connections. It keeps those whose counts have
  -- grown, with their new counts and in their order, takes the pending ones out that are too old, and sends
  -- the policy if a connection has been taken out.
  pub answers-run_clean :
      (s : State) (now : ℕ)
      → AreApart s.allowed
      → All (λ a. a.last_count ≤ count a.conn) s.allowed
      → answers
          (run_clean s now).0
          (run_clean s now).1
          (map (λ a. count a.conn) (reverse s.allowed))
        ≡ ended (expire s now) (used s.allowed) (any is_stale s.allowed)
  unfolding run_clean
  answers-run_clean s now h le =
      ap
        (λ xs.
          answers (record (expire s now) { allowed = xs }) (start (reverse s.allowed))
            (map (λ a. count a.conn) (reverse s.allowed)))
        (sym (reverse-reverse s.allowed))
      ∙ from_start (expire s now) (reverse s.allowed) (reverse-AreApart s.allowed h)
          (All-reverse _ s.allowed le)
      ∙ rw (reverse-reverse s.allowed) (rw (any-reverse is_stale s.allowed) refl)
