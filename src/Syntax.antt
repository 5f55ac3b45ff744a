-- ===== src/Syntax.antt =====
-- lang/python/frenetic/syntax.py: the NetKAT abstract syntax, its serialization and its sugar.
pub mod Ast
pub mod Build
pub mod Sugar
pub mod Print
pub mod Meaning
pub mod Unions
pub mod Choice
pub mod Wire
