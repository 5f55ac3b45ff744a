-- ===== src/Client/Life.antt =====
-- lang/python/frenetic/__init__.py: the loop of events goes on, and hands the application what the
-- controller tells.
use frenetic.Base.{
  ◌≡◌, ◌≢◌, refl, ap, ◌∙◌, List, [], ◌∷◌, ◌++◌, map, Option, none, some, Result, ok, err, All,
}
use frenetic.Base.Text.{Text}
use frenetic.Base.Base64.Decode.{b64decode}
use frenetic.Base.Base64.Laws.{IsBytes}
use frenetic.Json.{Json}
use frenetic.Messages.Controller.{Event, event_to_json}
use frenetic.Messages.Dispatch.{Call, dispatch}
use frenetic.Messages.Dispatch
use frenetic.Messages.Events.{call_of, Fits, dispatch-event_to_json}
use frenetic.Client.Loop.{
  App, Phase, connecting, polling, waiting, stopped, reply, http_error, failed, Input, response,
  timeout, Client, start, invoke, poll_after, handle_connect, handle_event, advance, run,
}

-- Handlers that raise nothing.
pub record IsTotal {S : Type 0} (app : App S) : Type 0 where
  pub returns : (call : Call) (s : S) → (app.handle call s).1 ≡ ok tt

-- A document that the client can dispatch.
abbrev pub IsReadable : Json → Type 0
IsReadable j = (call : Call) × (dispatch j ≡ ok call)

-- An answer with such a document, no answer, or the timer.
abbrev pub IsOrderly : Input → Type 0
IsOrderly (response (reply (some j))) = IsReadable j
IsOrderly (response (reply none)) = ⊥
IsOrderly (response (http_error code)) = code ≡ 599
IsOrderly (response failed) = ⊥
IsOrderly timeout = Unit

-- The answer to a request for an event; the request for one that cannot be printed fails.
abbrev pub answer_of : Option Json → Input
answer_of (some j) = response (reply (some j))
answer_of none = response failed

-- The documents of events, as answers.
abbrev pub documents : (Text → Text) → List Event → List Input
documents encode es = map (λ e. answer_of (event_to_json encode e)) es

module _ {S : Type 0} (app : App S) (total : IsTotal app) where
  invoke-ok : (call : Call) (s : S) → (invoke app call s).1 ≡ ok tt
  invoke-ok (Dispatch.switch_up a b) s = total.returns (Dispatch.switch_up a b) s
  invoke-ok (Dispatch.switch_down a) s = total.returns (Dispatch.switch_down a) s
  invoke-ok (Dispatch.port_up a b) s = total.returns (Dispatch.port_up a b) s
  invoke-ok (Dispatch.port_down a b) s = total.returns (Dispatch.port_down a b) s
  invoke-ok (Dispatch.packet_in a b p) s = total.returns (Dispatch.packet_in a b p) s
  invoke-ok Dispatch.nothing s = refl

  poll_after-ok :
      (p : S × Result (Unit {0}))
      → p.1 ≡ ok tt
      → poll_after app p ≡ record { phase = polling; state = p.0 }
  poll_after-ok (s, ok u) h = refl
  poll_after-ok (s, err e) h = cc

  handle_event-reply :
      (s : S) (j : Json) (call : Call)
      → dispatch j ≡ ok call
      → handle_event app s (reply (some j))
        ≡ record { phase = polling; state = (invoke app call s).0 }
  unfolding handle_event
  handle_event-reply s j call e = rw e (poll_after-ok (invoke app call s) (invoke-ok call s))

  advance-goes :
      (phase : Phase) (s : S) (i : Input)
      → phase ≢ stopped
      → IsOrderly i
      → (advance app phase s i).phase ≢ stopped
  unfolding advance handle_connect
  advance-goes connecting s (response (reply (some j))) h k = λ e. cc
  advance-goes connecting s (response (reply none)) h k = absurd k
  advance-goes connecting s (response (http_error code)) h k = rw k (λ e. cc)
  advance-goes connecting s (response failed) h k = absurd k
  advance-goes connecting s timeout h k = λ e. cc
  advance-goes polling s (response (reply (some j))) h k =
      rw (handle_event-reply s j k.0 k.1) (λ e. cc)
  advance-goes polling s (response (reply none)) h k = absurd k
  advance-goes polling s (response (http_error code)) h k = unfold handle_event in rw k (λ e. cc)
  advance-goes polling s (response failed) h k = absurd k
  advance-goes polling s timeout h k = λ e. cc
  advance-goes (waiting seconds) s (response r) h k = λ e. cc
  advance-goes (waiting seconds) s timeout h k = λ e. cc
  advance-goes stopped s i h k = absurd (h refl)

  run-goes :
      (is : List Input) (c : Client S)
      → c.phase ≢ stopped
      → All IsOrderly is
      → (run app is c).phase ≢ stopped
  unfolding run
  run-goes [] c h k = h
  run-goes (i ∷ is) c h k =
      run-goes is (advance app c.phase c.state i) (advance-goes c.phase c.state i h k.0) k.1

  -- Two inputs at most lead to the next request for an event.
  recovers :
      (phase : Phase) (s : S)
      → phase ≢ stopped
      → (later : List Input) × ((run app later (record { phase = phase; state = s })).phase
          ≡ polling)
  unfolding run advance handle_connect
  recovers connecting s h = (response (reply none) ∷ [], refl)
  recovers polling s h = ([], refl)
  recovers (waiting seconds) s h = (timeout ∷ response (reply none) ∷ [], refl)
  recovers stopped s h = absurd (h refl)

  run-append :
      (is js : List Input) (c : Client S) → run app (is ++ js) c ≡ run app js (run app is c)
  unfolding run
  run-append [] js c = refl
  run-append (i ∷ is) js c = run-append is js (advance app c.phase c.state i)

  -- Of an application whose handlers raise nothing, the client never stops while the answers can be
  -- dispatched or are missing: after any such inputs from the start, further inputs make it ask for an
  -- event again.
  pub run-polling :
      (is : List Input) (s : S)
      → All IsOrderly is
      → (later : List Input) × ((run app (is ++ later) (start s)).phase ≡ polling)
  run-polling is s h =
      let c = run app is (start s) in
      let (later, e) = recovers c.phase c.state (run-goes is (start s) (λ q. cc) h) in
      (later, ap (λ d. d.phase) (run-append is later (start s)) ∙ e)

  -- The application by itself: its handlers, called with one event after another.
  unfoldable pub serve : List Event → S → S
  serve [] s = s
  serve (e ∷ es) s = serve es (invoke app (call_of e) s).0

  -- If b64decode undoes the controller's encoder on bytes, and the handlers raise nothing: a client that
  -- asks for events and gets the documents of events whose numbers fit does to the application's state
  -- what the handlers do, called in the order of the events, and asks for the next.
  pub run-serve :
      (encode : Text → Text)
      → ((bytes : Text) → IsBytes bytes → b64decode (encode bytes) ≡ ok bytes)
      → (es : List Event) (s : S) → All Fits es
      → run app (documents encode es) (record { phase = polling; state = s })
        ≡ record { phase = polling; state = serve es s }
  unfolding run advance serve
  run-serve encode decodes [] s h = refl
  run-serve encode decodes (e ∷ es) s h =
      let (j, made, called) = dispatch-event_to_json encode decodes e h.0 in
      rw made (ap (run app (documents encode es)) (handle_event-reply s j (call_of e) called))
      ∙ run-serve encode decodes es (invoke app (call_of e) s).0 h.1
