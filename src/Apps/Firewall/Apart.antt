-- ===== src/Apps/Firewall/Apart.antt =====
-- lang/python/frenetic/examples/firewall.py: lists of connections, none of which is there twice.
use mathlib.Core.List.{reverse, reverse-cons}
use frenetic.Base.{
  ℕ, true, false, ◌&&◌, ◌||◌, not, ◌≡◌, refl, sym, ap, ◌∙◌, List, [], ◌∷◌, ◌++◌, arith, Bool-cases,
  inl, inr,
}
use frenetic.Apps.Firewall.State.{Conn, Allowed, same_conn, contains, remove}
use frenetic.Apps.Firewall.Safety.{same_conn_refl, same_conn→eq}
use frenetic.Apps.Firewall.Handlers.{count_of, drop_expired}

-- No connection twice.
abbrev pub AreApart : List Allowed → Type 0
AreApart [] = Unit
AreApart (a ∷ xs) = (contains a.conn xs ≡ false) × AreApart xs

pub contains-append :
    (c : Conn) (xs ys : List Allowed) → contains c (xs ++ ys) ≡ (contains c xs || contains c ys)
unfolding contains
contains-append c [] ys = refl
contains-append c (x ∷ xs) ys = ground (arith, contains-append c xs ys)

pub contains-reverse : (c : Conn) (xs : List Allowed) → contains c (reverse xs) ≡ contains c xs
unfolding contains
contains-reverse c [] = refl
contains-reverse c (x ∷ xs) =
    rw (reverse-cons x xs)
      (contains-append c (reverse xs) (x ∷ []) ∙ rw (contains-reverse c xs) (ground arith))

-- An entry that no earlier one equals is the one that is taken out, or counted.
pub remove-middle :
    (a : Allowed) (xs ys : List Allowed)
    → contains a.conn xs ≡ false
    → remove a.conn (xs ++ a ∷ ys) ≡ xs ++ ys
unfolding remove contains
remove-middle a [] ys h = rw (same_conn_refl a.conn) refl
remove-middle a (x ∷ xs) ys h =
    let e : same_conn x.conn a.conn ≡ false = ground arith in
    rw e (ap (λ l. x ∷ l) (remove-middle a xs ys (ground arith)))

pub count_of-middle :
    (a : Allowed) (n : ℕ) (xs ys : List Allowed)
    → contains a.conn xs ≡ false
    → count_of a.conn n (xs ++ a ∷ ys) ≡ xs ++ record a { last_count = n } ∷ ys
unfolding count_of contains
count_of-middle a n [] ys h = rw (same_conn_refl a.conn) refl
count_of-middle a n (x ∷ xs) ys h =
    let e : same_conn x.conn a.conn ≡ false = ground arith in
    rw e (ap (λ l. x ∷ l) (count_of-middle a n xs ys (ground arith)))

pub contains-middle : (a : Allowed) (xs ys : List Allowed) → contains a.conn (xs ++ a ∷ ys) ≡ true
unfolding contains
contains-middle a [] ys = rw (same_conn_refl a.conn) refl
contains-middle a (x ∷ xs) ys = ground (arith, contains-middle a xs ys)

pub same_conn_sym : (a b : Conn) → same_conn a b ≡ same_conn b a
same_conn_sym a b = elim (Bool-cases (same_conn a b)) [
  | inl e ↦ let q = same_conn→eq a b e in rw q refl
  | inr e ↦ elim (Bool-cases (same_conn b a)) [
    | inl f ↦ let q = same_conn→eq b a f in rw q refl
    | inr f ↦ e ∙ sym f
  ]
]

pub append_one-AreApart :
    (a : Allowed) (xs : List Allowed)
    → contains a.conn xs ≡ false
    → AreApart xs
    → AreApart (xs ++ a ∷ [])
unfolding contains
append_one-AreApart a [] h u = (refl, tt)
append_one-AreApart a (x ∷ xs) h (k, u) = (
  contains-append x.conn xs (a ∷ []) ∙ rw k (rw (same_conn_sym a.conn x.conn) (ground arith)),
  append_one-AreApart a xs (ground arith) u,
)

pub reverse-AreApart : (xs : List Allowed) → AreApart xs → AreApart (reverse xs)
reverse-AreApart [] u = tt
reverse-AreApart (x ∷ xs) (h, u) =
    rw (reverse-cons x xs)
      (append_one-AreApart x (reverse xs) (contains-reverse x.conn xs ∙ h) (reverse-AreApart xs u))

-- What is left by the operations on the lists.
same_conn-true : (a b c : Conn) → same_conn a b ≡ true → same_conn a c ≡ same_conn b c
same_conn-true a b c e = ap (λ x. same_conn x c) (same_conn→eq a b e)

pub contains-remove :
    (b c : Conn) (xs : List Allowed)
    → AreApart xs
    → contains c (remove b xs) ≡ (contains c xs && not (same_conn b c))
unfolding contains remove
contains-remove b c [] u = refl
contains-remove b c (x ∷ xs) (h, u) = elim (Bool-cases (same_conn x.conn b)) [
  | inl e ↦ elim (Bool-cases (same_conn b c)) [
    | inl f ↦
        let q = same_conn→eq b c f in
        let r = same_conn→eq x.conn b e in
        let k : contains c xs ≡ false = ap (λ y. contains y xs) (sym (r ∙ q)) ∙ h in
        rw e (rw f (rw k ground arith))
    | inr f ↦ let k = same_conn-true x.conn b c e ∙ f in rw e (rw f (rw k ground arith))
  ]
  | inr e ↦ elim (Bool-cases (same_conn b c)) [
    | inl f ↦
        let k : same_conn x.conn c ≡ false =
          ap (λ y. same_conn x.conn y) (sym (same_conn→eq b c f)) ∙ e in
        let i = contains-remove b c xs u in rw e (rw k (i ∙ refl))
    | inr f ↦ let i = contains-remove b c xs u in rw e (rw i ground arith)
  ]
]

pub remove-AreApart : (b : Conn) (xs : List Allowed) → AreApart xs → AreApart (remove b xs)
unfolding remove
remove-AreApart b [] u = tt
remove-AreApart b (x ∷ xs) (h, u) = elim (Bool-cases (same_conn x.conn b)) [
  | inl e ↦ rw e u
  | inr e ↦ rw e (contains-remove b x.conn xs u ∙ rw h refl, remove-AreApart b xs u)
]

pub contains-count_of :
    (b c : Conn) (n : ℕ) (xs : List Allowed) → contains c (count_of b n xs) ≡ contains c xs
unfolding contains count_of
contains-count_of b c n [] = refl
contains-count_of b c n (x ∷ xs) = elim (Bool-cases (same_conn x.conn b)) [
  | inl e ↦ rw e refl
  | inr e ↦ rw e (ap (λ t. same_conn x.conn c || t) (contains-count_of b c n xs))
]

pub count_of-AreApart :
    (b : Conn) (n : ℕ) (xs : List Allowed) → AreApart xs → AreApart (count_of b n xs)
unfolding count_of
count_of-AreApart b n [] u = tt
count_of-AreApart b n (x ∷ xs) (h, u) = elim (Bool-cases (same_conn x.conn b)) [
  | inl e ↦ rw e (h, u)
  | inr e ↦ rw e (contains-count_of b x.conn n xs ∙ h, count_of-AreApart b n xs u)
]

pub contains-drop_expired :
    (c : Conn) (now : ℕ) (xs : List Allowed)
    → contains c xs ≡ false
    → contains c (drop_expired now xs) ≡ false
unfolding contains drop_expired
contains-drop_expired c now [] h = refl
contains-drop_expired c now (x ∷ xs) h = ground (arith, contains-drop_expired c now xs)

pub drop_expired-AreApart :
    (now : ℕ) (xs : List Allowed) → AreApart xs → AreApart (drop_expired now xs)
unfolding drop_expired
drop_expired-AreApart now [] u = tt
drop_expired-AreApart now (x ∷ xs) (h, u) =
    ground (arith, contains-drop_expired x.conn now xs h, drop_expired-AreApart now xs u)
