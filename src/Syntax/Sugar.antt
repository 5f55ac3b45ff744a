-- ===== src/Syntax/Sugar.antt =====
-- lang/python/frenetic/syntax.py: the classes ...Eq, ...NotEq and Set..., which expand a list of
-- values to a predicate or a policy.
pub mod Loops
pub mod Tests
pub mod Sets
pub mod Laws
