-- ===== src/Apps/Firewall/Entries.antt =====
-- lang/python/frenetic/examples/firewall.py: what holds of each connection in a list of entries still
-- holds after the list is changed.
use frenetic.Base.{
  ℕ, ◌+◌, true, ◌≡◌, List, [], ◌∷◌, arith, All, All-append, Bool-cases, inl, inr, ltb,
}
use mathlib.Core.Path.{subst}
use frenetic.Apps.Firewall.State.{Conn, Allowed, State, same_conn, contains, remove, add_pending}
use frenetic.Apps.Firewall.Handlers.{count_of, drop_expired}
use frenetic.Apps.Firewall.Safety.{same_conn→eq}

module _ (I : Conn → Type 0) where
  abbrev pub Each : List Allowed → Type 0
  Each xs = All (λ a. I a.conn) xs

  pub Each-remove : (c : Conn) (xs : List Allowed) → Each xs → Each (remove c xs)
  unfolding remove
  Each-remove c [] h = tt
  Each-remove c (a ∷ xs) h = elim (Bool-cases (same_conn a.conn c)) [
    | inl e ↦ rw e h.1
    | inr e ↦ rw e (h.0, Each-remove c xs h.1)
  ]

  pub Each-count_of : (c : Conn) (n : ℕ) (xs : List Allowed) → Each xs → Each (count_of c n xs)
  unfolding count_of
  Each-count_of c n [] h = tt
  Each-count_of c n (a ∷ xs) h = elim (Bool-cases (same_conn a.conn c)) [
    | inl e ↦ rw e h
    | inr e ↦ rw e (h.0, Each-count_of c n xs h.1)
  ]

  pub Each-drop_expired : (now : ℕ) (xs : List Allowed) → Each xs → Each (drop_expired now xs)
  unfolding drop_expired
  Each-drop_expired now [] h = tt
  Each-drop_expired now (a ∷ xs) h = elim (Bool-cases (ltb (a.time_created + 3) now)) [
    | inl e ↦ rw e (Each-drop_expired now xs h.1)
    | inr e ↦ rw e (h.0, Each-drop_expired now xs h.1)
  ]

  pub Each-contains : (c : Conn) (xs : List Allowed) → Each xs → contains c xs ≡ true → I c
  unfolding contains
  Each-contains c [] h e = cc
  Each-contains c (a ∷ xs) h e = elim (Bool-cases (same_conn a.conn c)) [
    | inl q ↦ subst I (same_conn→eq a.conn c q) h.0
    | inr q ↦ Each-contains c xs h.1 (ground arith)
  ]

  -- The new entry's connection, unless one that compares equal is there.
  pub Each-add_pending :
      (a : Allowed) (s : State) → Each s.pending → I a.conn → Each (add_pending a s).pending
  unfolding add_pending
  Each-add_pending a s h i = elim (Bool-cases (contains a.conn s.allowed)) [
    | inl e ↦ rw e h
    | inr e ↦ elim (Bool-cases (contains a.conn s.pending)) [
      | inl f ↦ rw e (rw f h)
      | inr f ↦ rw e (rw f (All-append (λ a. I a.conn) s.pending (a ∷ []) h (i, tt)))
    ]
  ]

pub add_pending-allowed : (a : Allowed) (s : State) → (add_pending a s).allowed ≡ s.allowed
unfolding add_pending
add_pending-allowed a s = ground arith

pub add_pending-trusted_ips :
    (a : Allowed) (s : State) → (add_pending a s).trusted_ips ≡ s.trusted_ips
unfolding add_pending
add_pending-trusted_ips a s = ground arith

pub add_pending-version : (a : Allowed) (s : State) → (add_pending a s).version ≡ s.version
unfolding add_pending
add_pending-version a s = ground arith
