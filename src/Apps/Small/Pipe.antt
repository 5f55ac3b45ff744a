-- ===== src/Apps/Small/Pipe.antt =====
-- lang/python/frenetic/examples/pipe.py
use frenetic.Base.{[], ◌∷◌, Result, ok, ◌>>=◌}
use frenetic.Base.Text.{codes}
use frenetic.Value.{atom}
use frenetic.Syntax.Ast.{Policy}
use frenetic.Syntax.Build.{◌>>>◌}
use frenetic.Syntax.Sugar.Sets.{send_to_controller}
use frenetic.Syntax.Sugar.Tests.{port_eq}
use frenetic.Apps.Flood.Policy.{num}

unfoldable pub pipe : Result Policy
unfolding port_eq
pipe = do
  from ← port_eq (atom (num 1) ∷ [])
  ok (Policy.filter from >>> send_to_controller (codes "foo"))
