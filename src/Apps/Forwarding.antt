-- ===== src/Apps/Forwarding.antt =====
-- lang/python/frenetic/examples/single_switch_forwarding.py: forwarding on one switch, to the host
-- 10.0.0.n on port n.
use frenetic.Base.{ℕ, zero, suc, ◌+◌, [], ◌∷◌, ◌++◌, Option, none, some, Result, ok, ◌>>=◌}
use frenetic.Base.Int.{pos}
use frenetic.Base.Text.{codes}
use frenetic.Base.Decimal.{show}
use frenetic.Value
use frenetic.Value.{Atom, atom}
use frenetic.Syntax.Ast.{Policy}
use frenetic.Syntax.Build.{◌>>>◌, ◌⊔◌}
use frenetic.Syntax.Sugar.Tests.{ip4_dst_eq}
use frenetic.Syntax.Sugar.Sets.{set_port}

-- One round of the loop.
unfoldable pub to_host : ℕ → Result Policy
unfolding ip4_dst_eq set_port
to_host dst = do
  f ← ip4_dst_eq (Value.str (codes "10.0.0." ++ show dst)) none
  port ← set_port (atom (Value.int (pos dst)) ∷ [])
  ok (Policy.filter f >>> port)

-- `if vs == 0: vs = both; else: vs = vs | both`, where none stands for the 0
abbrev join : Option Policy → Policy → Policy
join none both = both
join (some vs) both = vs ⊔ both

-- The rounds from `dst` on, `n` of them.
unfoldable pub forward_from : Option Policy → ℕ → ℕ → Result (Option Policy)
unfolding to_host
forward_from vs dst zero = ok vs
forward_from vs dst (suc n) = do both ← to_host dst; forward_from (some (join vs both)) (dst + 1) n

unfoldable pub forwarding : ℕ → Result (Option Policy)
unfolding forward_from
forwarding ps = forward_from none 1 ps
