-- ===== src/Client/Loop.antt =====
-- lang/python/frenetic/__init__.py: the connection of an App to the controller and its loop of events, as
-- a machine that is driven by the answers to the one request that is under way, and by the timer.
use frenetic.Base.{ℕ, List, [], ◌∷◌, Option, none, some, Result, ok, err, ◌==◌, if◌then◌else◌}
use frenetic.Json.{Json}
use frenetic.Messages.Dispatch.{Call, dispatch}
use frenetic.Messages.Dispatch

-- The methods that an application overrides, on the application's state. What a handler wrote before an
-- exception stays written.
pub record App (S : Type 0) : Type 0 where
  pub handle : Call → S → S × Result (Unit {0})
  pub connected : S → S × Result (Unit {0})

-- What waits: the request /version, the request for an event, a timer of so many seconds before the
-- client connects, or nothing any more.
pub data Phase : Type 0 where
  connecting : Phase
  polling : Phase
  waiting : ℕ → Phase
  stopped : Phase

-- The outcome of a request: a body, which is none where it is no JSON; an HTTPError with its code, 599
-- where there is no answer; or another exception.
pub data Response : Type 0 where
  reply : Option Json → Response
  http_error : ℕ → Response
  failed : Response

pub data Input : Type 0 where
  response : Response → Input
  timeout : Input

pub record Client (S : Type 0) : Type 0 where
  pub phase : Phase
  pub state : S

abbrev pub start : {S : Type 0} → S → Client S
start s = record { phase = connecting; state = s }

-- An HTTPError 599 sets a timer, and any other is raised.
abbrev pub retry_or_raise : ℕ → ℕ → Phase
retry_or_raise seconds code = if code == 599 then waiting seconds else stopped

module _ {S : Type 0} (app : App S) where
  -- __handle_connect: the request for an event is sent before `connected` is called, so it stands if
  -- `connected` raises an exception.
  unfoldable pub handle_connect : S → Response → Client S
  handle_connect s (reply body) = record { phase = polling; state = (app.connected s).0 }
  handle_connect s (http_error code) = record { phase = retry_or_raise 1 code; state = s }
  handle_connect s failed = record { phase = stopped; state = s }

  -- An event of an unknown type has no handler.
  abbrev pub invoke : Call → S → S × Result (Unit {0})
  invoke Dispatch.nothing s = (s, ok tt)
  invoke call s = app.handle call s

  -- The next request is sent only after the handler has returned.
  abbrev pub poll_after : S × Result (Unit {0}) → Client S
  poll_after (s, ok _) = record { phase = polling; state = s }
  poll_after (s, err e) = record { phase = stopped; state = s }

  abbrev pub handle_call : S → Result Call → Client S
  handle_call s (ok call) = poll_after (invoke call s)
  handle_call s (err e) = record { phase = stopped; state = s }

  -- __handle_event
  unfoldable pub handle_event : S → Response → Client S
  handle_event s (reply (some event)) = handle_call s (dispatch event)
  handle_event s (reply none) = record { phase = stopped; state = s }
  handle_event s (http_error code) = record { phase = retry_or_raise 5 code; state = s }
  handle_event s failed = record { phase = stopped; state = s }

  -- An answer goes to the request that is under way, and the timer connects.
  unfoldable pub advance : Phase → S → Input → Client S
  unfolding handle_connect handle_event
  advance connecting s (response r) = handle_connect s r
  advance polling s (response r) = handle_event s r
  advance (waiting seconds) s timeout = record { phase = connecting; state = s }
  advance phase s _ = record { phase = phase; state = s }

  unfoldable pub run : List Input → Client S → Client S
  unfolding advance
  run [] c = c
  run (i ∷ is) c = run is (advance c.phase c.state i)
