-- ===== src/Apps/Learning/State.antt =====
-- lang/python/frenetic/examples/learning.py: the three module variables and the handlers. A handler
-- returns the state beside its result, since what it wrote before an exception stays written. The
-- policy that each handler sends at its end is in the module Policy.
use frenetic.Base.{
  ℕ, Bool, true, false, List, [], ◌∷◌, ◌++◌, Option, none, some, Result, ok, err, key_error,
  value_error, any, is_some, ◌==◌, if◌then◌else◌,
}
use frenetic.Base.Text.{Text}
use frenetic.Packet.Defs.{Packet, Protocol}
use frenetic.Packet.Decode.{from_payload}
use frenetic.Apps.Firewall.State.{eq_text}
use frenetic.Apps.Learning.Dict.{Dict, get, put, delete}

-- An Ethernet address is None where a frame has no Ethernet header.
pub record State : Type 0 where
  pub table : Dict (List (Option Text × ℕ))
  pub topo : Dict (List ℕ)
  pub all_ethernet : List (Option Text)

abbrev pub init : State
init = record { table = []; topo = []; all_ethernet = [] }

-- `if switch_id not in topo: topo[switch_id] = []; table[switch_id] = {}`
unfoldable pub ensure : ℕ → State → State
ensure sw s =
    if is_some (get sw s.topo)
    then s
    else record s { topo = put sw [] s.topo; table = put sw [] s.table }

-- `mac in all_ethernet`
unfoldable pub seen : Option Text → List (Option Text) → Bool
seen mac macs = any (λ m. eq_text m mac) macs

-- `table[switch_id][mac] = pt`
unfoldable pub put_mac : Option Text → ℕ → List (Option Text × ℕ) → List (Option Text × ℕ)
put_mac mac pt [] = (mac, pt) ∷ []
put_mac mac pt ((m, p) ∷ ms) = if eq_text m mac then (m, pt) ∷ ms else (m, p) ∷ put_mac mac pt ms

-- The end of `learn`, from the address on; true stands for "updates_needed".
unfoldable pub learn_mac : ℕ → Option Text → ℕ → State → State × Result Bool
learn_mac sw mac pt s = if seen mac s.all_ethernet then (s, ok false) else elim (get sw s.table) [
  | none ↦ (s, err key_error)
  | some macs ↦ (
    record s {
      table = put sw (put_mac mac pt macs) s.table;
      all_ethernet = s.all_ethernet ++ mac ∷ [];
    },
    ok true,
  )
]

-- The call of from_payload, and what follows it.
abbrev pub learn_parsed : ℕ → ℕ → State → Result Packet → State × Result Bool
learn_parsed sw pt s (ok pkt) = learn_mac sw pkt.eth_src pt s
learn_parsed sw pt s (err e) = (s, err e)

unfoldable pub learn : (Text → List Protocol) → ℕ → Text → ℕ → State → State × Result Bool
learn parse sw raw_data pt s = learn_parsed sw pt (ensure sw s) (from_payload parse sw pt raw_data)

unfoldable pub switch_up : ℕ → List ℕ → State → State
switch_up sw ports s = record s { topo = put sw ports s.topo; table = put sw [] s.table }

-- The KeyError of the first `del` is caught before the second.
unfoldable pub switch_down : ℕ → State → State
switch_down sw s =
    if is_some (get sw s.topo)
    then record s { topo = delete sw s.topo; table = delete sw s.table }
    else s

abbrev ports_of : Option (List ℕ) → List ℕ
ports_of none = []
ports_of (some ports) = ports

unfoldable pub port_up : ℕ → ℕ → State → State
port_up sw pt s =
    let s' = ensure sw s in
    record s' { topo = put sw (ports_of (get sw s'.topo) ++ pt ∷ []) s'.topo }

-- list.remove: the first that is equal
unfoldable pub remove_port : ℕ → List ℕ → List ℕ
remove_port pt [] = []
remove_port pt (p ∷ ps) = if p == pt then ps else p ∷ remove_port pt ps

-- A switch that is not there is passed over; a port that is not there is a ValueError.
unfoldable pub port_down : ℕ → ℕ → State → State × Result (Unit {0})
port_down sw pt s = elim (get sw s.topo) [
  | none ↦ (s, ok tt)
  | some ports ↦
      if any (λ p. p == pt) ports
      then (record s { topo = put sw (remove_port pt ports) s.topo }, ok tt)
      else (s, err value_error)
]
