-- ===== src/Syntax/Sugar/Laws.antt =====
-- lang/python/frenetic/syntax.py: what the ...Eq, ...NotEq and Set... classes expand to.
use frenetic.Base.{
  ℕ, ◌^◌, ◌<◌, Bool, true, false, not, ◌||◌, ◌≡◌, refl, ap, ◌∙◌, List, [], ◌∷◌, map, Result, ok,
  err, arith, any, all, traverse, traverse-ok, lt→ltb, index_error, assertion_error, name_error,
  failure, PyError, Option, none, some, if◌then◌else◌, Bool-cases, inl, inr,
}
use frenetic.Base.Int.{pos}
use frenetic.Base.Decimal.{show}
use frenetic.Base.Decimal.Laws.{parse_int-show}
use frenetic.Value
use frenetic.Value.{Atom, int, str, unicode, Arg, list, str_to_int, assert_int, spread}
use frenetic.Netkat.Eval.{Packets}
use frenetic.Syntax.Ast.{physical, location, HeaderAndValue, switch, Pred, preds}
use frenetic.Syntax.Build.{int_header}
use frenetic.Syntax.Meaning.{full, holds, holds_any}
use frenetic.Syntax.Sugar.Loops.{
  checked, test_of, join_tests, init_int_eq, assert_str, init_str_eq, is_port,
}
use frenetic.Syntax.Sugar.Tests.{port_location, join_ports, port_eq, switch_eq, switch_not_eq}

abbrev pub num : ℕ → Atom
num n = int (pos n)

-- A list of numbers as one argument.
abbrev pub numbers : List ℕ → List Arg
numbers ns = list (map num ns) ∷ []

-- A number and its decimal text are checked alike.
pub checked-show :
    (p : ℕ → Bool) (n : ℕ) → n < 2 ^ 63 → checked p (str (show n)) ≡ checked p (num n)
unfolding checked
checked-show p n h = rw (parse_int-show n) (rw (lt→ltb n (2 ^ 63) h) refl)

pub checked-all :
    (p : ℕ → Bool) (ns : List ℕ)
    → traverse (checked p) (map num ns) ≡ (if all p ns then ok ns else err assertion_error)
unfolding checked
checked-all p [] = refl
checked-all p (n ∷ ns) = elim (Bool-cases (p n)) [
  | inl e ↦ rw e (rw (checked-all p ns) (ground arith))
  | inr e ↦ rw e refl
]

all-true : (ns : List ℕ) → all (λ n. true) ns ≡ true
all-true [] = refl
all-true (n ∷ ns) = all-true ns

module _ {P : Type 0} (m : Packets P) (pkt : P) where
  holds_any-preds :
      (klass : ℕ → HeaderAndValue) (ns : List ℕ)
      → holds_any m pkt (preds (map (λ n. Pred.test (klass n)) ns))
        ≡ any (λ n. m.holds (full (klass n)) pkt) ns
  unfolding holds
  holds_any-preds klass [] = refl
  holds_any-preds klass (n ∷ ns) =
      ap (◌||◌ (m.holds (full (klass n)) pkt)) (holds_any-preds klass ns)

  -- The joined tests hold if one of them does.
  holds-join_tests :
      (klass : ℕ → HeaderAndValue) (ns : List ℕ)
      → holds m pkt (join_tests (map (λ n. Pred.test (klass n)) ns))
        ≡ any (λ n. m.holds (full (klass n)) pkt) ns
  unfolding holds
  holds-join_tests klass [] = refl
  holds-join_tests klass (n ∷ []) = ground arith
  holds-join_tests klass (n ∷ k ∷ ns) = holds_any-preds klass (n ∷ k ∷ ns)

holds-multi :
    {P : Type 0} (m : Packets P) (pkt : P) (p : Pred)
    → holds m pkt (Pred.multi_pred p) ≡ holds m pkt p
unfolding holds
holds-multi m pkt p = refl

init_int_eq-numbers :
    (klass : ℕ → HeaderAndValue) (ns : List ℕ)
    → init_int_eq (int_header klass) (numbers ns)
      ≡ ok (join_tests (map (λ n. Pred.test (klass n)) ns))
unfolding init_int_eq int_header
init_int_eq-numbers klass ns =
    rw (checked-all (λ n. true) ns)
      (rw (all-true ns) (rw (traverse-ok _ (λ n. Pred.test (klass n)) ns (λ n. refl)) refl))

-- For every class of integer headers: from a list of numbers init_int_eq makes a predicate that
-- holds of a packet exactly if the packet passes the test for one of them.
pub holds-init_int_eq :
    {P : Type 0} (m : Packets P) (klass : ℕ → HeaderAndValue) (ns : List ℕ)
    → (p : Pred) × (init_int_eq (int_header klass) (numbers ns) ≡ ok p)
      × ((pkt : P) → holds m pkt p ≡ any (λ n. m.holds (full (klass n)) pkt) ns)
holds-init_int_eq m klass ns =
    (_, init_int_eq-numbers klass ns, λ pkt. holds-join_tests m pkt klass ns)

switch_eq-numbers :
    (ns : List ℕ)
    → switch_eq (numbers ns)
      ≡ ok (Pred.multi_pred (join_tests (map (λ n. Pred.test (switch n)) ns)))
unfolding switch_eq
switch_eq-numbers ns = rw (init_int_eq-numbers switch ns) refl

-- SwitchNotEq of a list of numbers holds of a packet exactly if its switch is none of them.
pub holds-switch_not_eq :
    {P : Type 0} (m : Packets P) (ns : List ℕ)
    → (p : Pred) × (switch_not_eq (numbers ns) ≡ ok p)
      × ((pkt : P) → holds m pkt p ≡ not (any (λ n. m.holds (switch n) pkt) ns))
unfolding switch_not_eq holds
holds-switch_not_eq m ns = (
  Pred.multi_pred (Pred.not (Pred.multi_pred (join_tests (map (λ n. Pred.test (switch n)) ns)))),
  rw (switch_eq-numbers ns) refl,
  λ pkt. ap not (holds-join_tests m pkt switch ns),
)

abbrev port_test : ℕ → HeaderAndValue
port_test n = location (physical n)

join_ports-cons :
    (n : ℕ) (ns : List ℕ)
    → join_ports (map (λ k. Pred.test (port_test k)) (n ∷ ns))
      ≡ ok (join_tests (map (λ k. Pred.test (port_test k)) (n ∷ ns)))
join_ports-cons n [] = refl
join_ports-cons n (k ∷ ns) = refl

port_tests :
    (ns : List ℕ)
    → traverse (λ n. test_of port_location (num n)) ns ≡ ok (map (λ k. Pred.test (port_test k)) ns)
unfolding port_location
port_tests ns = traverse-ok _ (λ k. Pred.test (port_test k)) ns (λ n. refl)

port_eq-numbers :
    (n : ℕ) (ns : List ℕ)
    → port_eq (numbers (n ∷ ns)) ≡ (
        if all is_port (n ∷ ns)
        then ok (Pred.multi_pred (join_tests (map (λ k. Pred.test (port_test k)) (n ∷ ns))))
        else err assertion_error)
unfolding port_eq
port_eq-numbers n ns = elim (Bool-cases (all is_port (n ∷ ns))) [
  | inl e ↦
      rw (checked-all is_port (n ∷ ns))
        (rw e (rw (port_tests (n ∷ ns)) (rw (join_ports-cons n ns) refl)))
  | inr e ↦ rw (checked-all is_port (n ∷ ns)) (rw e refl)
]

-- PortEq of a non-empty list of port numbers from 1 to 65535 makes a predicate that holds of a
-- packet exactly if it stands at one of the ports.
pub holds-port_eq :
    {P : Type 0} (m : Packets P) (n : ℕ) (ns : List ℕ)
    → all is_port (n ∷ ns) ≡ true
    → (p : Pred) × (port_eq (numbers (n ∷ ns)) ≡ ok p)
      × ((pkt : P) → holds m pkt p ≡ any (λ k. m.holds (location (physical k)) pkt) (n ∷ ns))
holds-port_eq m n ns e = (
  _,
  port_eq-numbers n ns ∙ rw e refl,
  λ pkt.
      holds-multi m pkt (join_tests (map (λ k. Pred.test (port_test k)) (n ∷ ns)))
      ∙ holds-join_tests m pkt port_test (n ∷ ns),
)

-- What a list of numbers makes PortEq raise.
abbrev pub port_eq_failure : List ℕ → Option PyError
port_eq_failure [] = some index_error
port_eq_failure (n ∷ ns) = if all is_port (n ∷ ns) then none else some assertion_error

-- PortEq of a list of numbers raises an IndexError if there is none, an AssertionError if one of
-- them is not from 1 to 65535, and else nothing.
pub failure-port_eq : (ns : List ℕ) → failure (port_eq (numbers ns)) ≡ port_eq_failure ns
failure-port_eq [] = unfold port_eq in refl
failure-port_eq (n ∷ ns) = ap failure (port_eq-numbers n ns) ∙ both (all is_port (n ∷ ns)) _
  where
    both :
        (b : Bool) (p : Pred)
        → failure (if b then ok p else err assertion_error)
          ≡ (if b then none else some assertion_error)
    both true p = refl
    both false p = refl

-- The type `str`.
abbrev pub is_str : Atom → Bool
is_str (str s) = true
is_str _ = false

assert_str-name_error :
    (vs : List Atom) → all is_str vs ≡ false → traverse assert_str vs ≡ err name_error
unfolding assert_str
assert_str-name_error [] h = cc
assert_str-name_error (str s ∷ vs) h = rw (assert_str-name_error vs h) refl
assert_str-name_error (int n ∷ vs) h = refl
assert_str-name_error (Value.long n ∷ vs) h = refl
assert_str-name_error (unicode s ∷ vs) h = refl
assert_str-name_error (Value.other ∷ vs) h = refl

-- In a list of values, one that is no `str`, a `unicode` among them, makes init_str_eq raise a
-- NameError.
pub init_str_eq-name_error :
    (klass : Atom → Result HeaderAndValue) (vs : List Atom)
    → all is_str vs ≡ false
    → init_str_eq klass (list vs ∷ []) ≡ err name_error
unfolding init_str_eq
init_str_eq-name_error klass vs h = rw (assert_str-name_error vs h) refl
