-- ===== src/Messages/Dispatch.antt =====
-- lang/python/frenetic/__init__.py: App.__handle_event, from the document of an event to the handler that
-- is called. The arguments that the code takes from the document unread are documents here.
use frenetic.Base.{
  ℕ, Bool, true, false, ◌||◌, ◌&&◌, [], ◌∷◌, Option, none, some, Result, ok, err, ◌>>=◌, type_error,
  ◌==◌, if◌then◌else◌,
}
use frenetic.Base.Text.{Text, codes}
use frenetic.Json.{Json, find}
use frenetic.PacketOut.Defs.{Payload}
use frenetic.Messages.Defs.{item, is_tag, packet_in_init}

pub data Call : Type 0 where
  switch_up : (switch_id ports : Json) → Call
  switch_down : (switch_id : Json) → Call
  port_up : (switch_id port_id : Json) → Call
  port_down : (switch_id port_id : Json) → Call
  packet_in : (switch_id port_id : ℕ) (payload : Payload) → Call
  nothing : Call

unfoldable pub is_prefix : Text → Text → Bool
is_prefix [] t = true
is_prefix (c ∷ s) [] = false
is_prefix (c ∷ s) (d ∷ t) = c == d && is_prefix s t

-- `s in t`, for texts
unfoldable pub is_infix : Text → Text → Bool
unfolding is_prefix
is_infix s [] = is_prefix s []
is_infix s (d ∷ t) = is_prefix s (d ∷ t) || is_infix s t

-- `typ`, where none stands for "UNKNOWN"; a text has no item "type", and what is no container has none
-- to look into.
unfoldable pub event_type : Json → Result (Option Json)
unfolding is_infix
event_type (Json.arr js) = ok none
event_type (Json.obj fs) = ok (find "type" fs)
event_type (Json.str s) = if is_infix (codes "type") s then err type_error else ok none
event_type j = err type_error

unfoldable pub dispatch_type : Json → Json → Result Call
unfolding is_tag
dispatch_type typ event =
    if is_tag "switch_up" typ
    then (do
      switch_id ← item "switch_id" event
      ports ← item "ports" event
      ok (switch_up switch_id ports))
    else if is_tag "switch_down" typ
    then (do switch_id ← item "switch_id" event; ok (switch_down switch_id))
    else if is_tag "port_up" typ
    then (do
      switch_id ← item "switch_id" event
      port_id ← item "port_id" event
      ok (port_up switch_id port_id))
    else if is_tag "port_down" typ
    then (do
      switch_id ← item "switch_id" event
      port_id ← item "port_id" event
      ok (port_down switch_id port_id))
    else if is_tag "packet_in" typ
    then (do pk ← packet_in_init event; ok (packet_in pk.switch_id pk.port_id pk.payload))
    else ok nothing

abbrev dispatch_opt : Option Json → Json → Result Call
dispatch_opt none event = ok nothing
dispatch_opt (some typ) event = dispatch_type typ event

unfoldable pub dispatch : Json → Result Call
unfolding event_type dispatch_type
dispatch event = do typ ← event_type event; dispatch_opt typ event
