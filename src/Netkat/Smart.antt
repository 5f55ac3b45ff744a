-- ===== src/Netkat/Smart.antt =====
-- lib/Frenetic_NetKAT_Optimize.ml: the constructors that simplify as they build.
use mathlib.Core.List.{foldl}
use frenetic.Base.{List}
use frenetic.Netkat.Ast.{Pred, Policy}

unfoldable pub mk_and : Pred → Pred → Pred
mk_and Pred.true q = q
mk_and p Pred.true = p
mk_and Pred.false q = Pred.false
mk_and p Pred.false = Pred.false
mk_and p q = Pred.and p q

unfoldable pub mk_or : Pred → Pred → Pred
mk_or Pred.true q = Pred.true
mk_or p Pred.true = Pred.true
mk_or Pred.false q = q
mk_or p Pred.false = p
mk_or p q = Pred.or p q

unfoldable pub mk_union : Policy → Policy → Policy
mk_union (Policy.filter Pred.false) q = q
mk_union p (Policy.filter Pred.false) = p
mk_union p q = Policy.union p q

unfoldable pub mk_seq : Policy → Policy → Policy
mk_seq (Policy.filter Pred.true) q = q
mk_seq p (Policy.filter Pred.true) = p
mk_seq (Policy.filter Pred.false) q = Policy.filter Pred.false
mk_seq p (Policy.filter Pred.false) = Policy.filter Pred.false
mk_seq p q = Policy.seq p q

unfoldable pub mk_big_and : List Pred → Pred
unfolding mk_and
mk_big_and = foldl mk_and Pred.true

unfoldable pub mk_big_or : List Pred → Pred
unfolding mk_or
mk_big_or = foldl mk_or Pred.false

unfoldable pub mk_big_union : List Policy → Policy
unfolding mk_union
mk_big_union = foldl mk_union (Policy.filter Pred.false)

unfoldable pub mk_big_seq : List Policy → Policy
unfolding mk_seq
mk_big_seq = foldl mk_seq (Policy.filter Pred.true)
