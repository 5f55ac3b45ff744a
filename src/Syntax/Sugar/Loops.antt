-- ===== src/Syntax/Sugar/Loops.antt =====
-- lang/python/frenetic/syntax.py: init_int_eq, init_str_eq, int_policy and str_policy, which the
-- sugar classes share, with the class of the header as an argument.
use frenetic.Base.{ℕ, Bool, true, List, [], ◌∷◌, Result, ok, err, ◌>>=◌}
use frenetic.Base.{name_error, leb, ltb, ◌&&◌, traverse}
use frenetic.Base.Int.{pos}
use frenetic.Value.{Atom, int, str, Arg, str_to_int, assert_int, spread}
use frenetic.Syntax.Ast.{HeaderAndValue, Pred, Policy, preds}

-- One round of the loop that converts and checks: `v = int(v)` on a string, then the assertion.
unfoldable pub checked : (ℕ → Bool) → Atom → Result ℕ
unfolding str_to_int assert_int
checked p v = str_to_int v >>= assert_int p

-- `Test(klass(v))`
abbrev pub test_of : (Atom → Result HeaderAndValue) → Atom → Result Pred
test_of klass v = klass v >>= λ hv. ok (Pred.test hv)

-- The last lines of init_int_eq and init_str_eq: an Or of several, `false` of none.
abbrev pub join_tests : List Pred → Pred
join_tests [] = Pred.drop
join_tests (p ∷ []) = p
join_tests (p ∷ q ∷ ps) = Pred.or (preds (p ∷ q ∷ ps))

-- `assert(type(v) == int and v >= 0)` is the test of init_int_eq.
unfoldable pub init_int_eq : (Atom → Result HeaderAndValue) → List Arg → Result Pred
unfolding checked spread
init_int_eq klass values = do
  vs ← spread values
  ns ← traverse (checked (λ n. true)) vs
  expanded ← traverse (λ n. test_of klass (int (pos n))) ns
  ok (join_tests expanded)

-- `assert(type(v) == str or type(value) == unicode)`: there is no variable `value`, so its second
-- half raises a NameError whenever it is reached.
unfoldable pub assert_str : Atom → Result (Unit {0})
assert_str (str s) = ok tt
assert_str _ = err name_error

unfoldable pub init_str_eq : (Atom → Result HeaderAndValue) → List Arg → Result Pred
unfolding assert_str spread
init_str_eq klass values = do
  vs ← spread values
  _ ← traverse assert_str vs
  expanded ← traverse (test_of klass) vs
  ok (join_tests expanded)

-- int_policy asserts `value > 0`.
unfoldable pub int_policy : (Atom → Result HeaderAndValue) → Atom → Result Policy
unfolding checked
int_policy klass value = do n ← checked (ltb 0) value; hv ← klass (int (pos n)); ok (Policy.mod' hv)

-- The assertion of str_policy asks for the type of a comparison, which is never false.
unfoldable pub str_policy : (Atom → Result HeaderAndValue) → Atom → Result Policy
str_policy klass value = klass value >>= λ hv. ok (Policy.mod' hv)

-- `v >= 1 and v <= 65535`
abbrev pub is_port : ℕ → Bool
is_port v = leb 1 v && leb v 65535
