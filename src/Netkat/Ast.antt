-- ===== src/Netkat/Ast.antt =====
-- lib/Frenetic_NetKAT.ml: predicates and policies as the controller keeps them. Header values are
-- those of the client, with every mask present; links and stars, which no client object prints, are
-- left out.
use frenetic.Syntax.Ast.{HeaderAndValue}

pub data Pred : Type 0 where
  true : Pred
  false : Pred
  test : HeaderAndValue → Pred
  and : Pred → Pred → Pred
  or : Pred → Pred → Pred
  neg : Pred → Pred

pub data Policy : Type 0 where
  filter : Pred → Policy
  mod' : HeaderAndValue → Policy
  union : Policy → Policy → Policy
  seq : Policy → Policy → Policy
