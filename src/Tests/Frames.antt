-- ===== src/Tests/Frames.antt =====
-- Packets for the theorems on lang/python/frenetic/examples.
use frenetic.Base.{ℕ, Bool, false, ◌==◌}
use frenetic.Base.Text.{Text, text_eq}
use frenetic.Syntax.Ast as Ast
use frenetic.Syntax.Ast.{physical, location, Policy}
use frenetic.Netkat.Eval.{Packets}

-- IP packets, by the switch and the port where they are and by their addresses.
pub record Frame : Type 0 where
  pub at_switch : ℕ
  pub at_port : ℕ
  pub src : Text
  pub dst : Text

abbrev pub frames : Packets Frame
frames = record { holds = holds_of; assign = move }
  where
    holds_of : Ast.HeaderAndValue → Frame → Bool
    holds_of (Ast.switch k) f = k == f.at_switch
    holds_of (location (physical k)) f = k == f.at_port
    holds_of (Ast.eth_src a) f = text_eq a f.src
    holds_of (Ast.eth_dst a) f = text_eq a f.dst
    holds_of (Ast.eth_type n) f = n == 0x800
    holds_of hv f = false

    move : Ast.HeaderAndValue → Frame → Frame
    move (location (physical l)) f = record f { at_port = l }
    move hv f = f
