-- ===== src/Apps/Firewall/Cleaning.antt =====
-- lang/python/frenetic/examples/firewall.py: run_clean, as a machine that asks the controller for the
-- count of one allowed connection after another. A round ends before the next one begins, and the
-- connections that are left to ask for are kept with the end of the source's list first.
use mathlib.Core.List.{reverse}
use frenetic.Base.{ℕ, Bool, true, false, ◌==◌, List, [], ◌∷◌, ◌++◌, Result, ok, err}
use frenetic.Apps.Firewall.State.{Allowed, State}
use frenetic.Apps.Firewall.Handlers.{Message, Outcome, done, update_then, clean_callback, expire}

-- No query is under way, or one for an entry, with the entries that are left and should_clean.
pub data Round : Type 0 where
  idle : Round
  waiting : Allowed → List Allowed → Bool → Round

-- An empty list, which the callers rule out, would be an AssertionError.
unfoldable pub clean_next : List Allowed → Bool → Round
clean_next [] should_clean = idle
clean_next (a ∷ allowed_conns) should_clean = waiting a allowed_conns should_clean

unfoldable pub clean_next_callback : State → List Allowed → Bool → Round × Outcome
unfolding clean_next update_then
clean_next_callback s (a ∷ allowed_conns) should_clean =
    (clean_next (a ∷ allowed_conns) should_clean, done s [])
clean_next_callback s [] true = (idle, update_then s (done s []))
clean_next_callback s [] false = (idle, done s [])

abbrev pub callback_then : State → List Allowed → Result (State × Bool) → Round × Outcome
callback_then s allowed_conns (ok (s', should_clean)) =
    clean_next_callback s' allowed_conns should_clean
callback_then s allowed_conns (err e) = (idle, record { result = err e; state = s; sent = [] })

-- The controller's answer to the query that is under way: an exception ends the round.
unfoldable pub answer : State → Round → ℕ → Round × Outcome
unfolding clean_callback clean_next_callback
answer s idle curr_bytes = (idle, done s [])
answer s (waiting a allowed_conns should_clean) curr_bytes =
    callback_then s allowed_conns (clean_callback s a curr_bytes should_clean)

abbrev pub start : List Allowed → Round
start [] = idle
start (a ∷ allowed_conns) = clean_next (a ∷ allowed_conns) false

unfoldable pub run_clean : State → ℕ → State × Round
unfolding clean_next
run_clean s now = (expire s now, start (reverse s.allowed))

-- What a list of answers comes to.
pub record Swept : Type 0 where
  pub state : State
  pub round : Round
  pub sent : List Message

abbrev pub send_first : List Message → Swept → Swept
send_first out w = record w { sent = out ++ w.sent }

unfoldable pub answers : State → Round → List ℕ → Swept
unfolding answer
answers s r [] = record { state = s; round = r; sent = [] }
answers s r (n ∷ ns) = let (r', o) = answer s r n in send_first o.sent (answers o.state r' ns)

-- What the firewall does when it is connected, and whether run_clean is called from then on, once in
-- clean_delay seconds. A policy that cannot be made is an exception before the timer is set.
abbrev starts : State → Result (Unit {0}) → Bool
starts s (ok u) = s.version == 3
starts s (err e) = false

unfoldable pub connected : State → Outcome × Bool
unfolding update_then
connected s = let o = update_then s (done s []) in (o, starts s o.result)
