-- ===== src/Value.antt =====
-- The Python 2 values that a caller may hand to the constructors of
-- lang/python/frenetic/syntax.py, and the conversions that those make of them.
use frenetic.Base.{ℕ, Bool, List, [], ◌∷◌, map, Result, ok, err}
use frenetic.Base.{assertion_error, index_error, value_error, or_raise, ltb, if◌then◌else◌, ◌^◌}
use frenetic.Base.{◌>>=◌}
use frenetic.Base.Int.{ℤ, pos, negsuc}
use frenetic.Base.Text.{Text}
use frenetic.Base.Decimal.{parse_int}

-- A value that is not a list. `int` is a machine integer, `long` any larger one: the two are
-- different types in Python 2. `other` is a value of any other type, such as None or a float.
pub data Atom : Type 0 where
  int : ℤ → Atom
  long : ℤ → Atom
  str : Text → Atom
  unicode : Text → Atom
  other : Atom

-- An argument of a call.
pub data Arg : Type 0 where
  atom : Atom → Arg
  list : List Atom → Arg

-- The first number past the largest `int` of a 64-bit Python 2, sys.maxint + 1.
abbrev int_limit : ℕ
int_limit = 2 ^ 63

-- An integer that a conversion yields is an `int` if it fits, and else a `long`.
unfoldable pub integer : ℤ → Atom
integer (pos n) = if ltb n int_limit then int (pos n) else long (pos n)
integer (negsuc n) = if ltb n int_limit then int (negsuc n) else long (negsuc n)

-- `if type(v) == str: v = int(v)`
unfoldable pub str_to_int : Atom → Result Atom
unfolding integer
str_to_int (str s) = or_raise value_error (parse_int s) >>= λ n. ok (integer n)
str_to_int v = ok v

-- `assert(type(v) == int and p(v))`, for a test `p` that fails on negative numbers.
unfoldable pub assert_int : (ℕ → Bool) → Atom → Result ℕ
assert_int p (int (pos n)) = if p n then ok n else err assertion_error
assert_int p _ = err assertion_error

-- `assert type(v) == str or type(v) == unicode`
unfoldable pub assert_text : Atom → Result Text
assert_text (str s) = ok s
assert_text (unicode s) = ok s
assert_text _ = err assertion_error

-- A list among several arguments is a value of another type than those that are wanted.
abbrev item : Arg → Atom
item (atom a) = a
item (list vs) = other

-- `if type(values[0]) == list: values = values[0]`; `values[0]` fails where there is none.
unfoldable pub spread : List Arg → Result (List Atom)
spread [] = err index_error
spread (list vs ∷ rest) = ok vs
spread (atom a ∷ rest) = ok (a ∷ map item rest)
