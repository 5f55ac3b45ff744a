-- ===== src/Discovery/State.antt =====
-- lang/python/frenetic/examples/discovery/state.py. A set is a list in one of its orders.
use frenetic.Base.{
  ℕ, Bool, true, false, not, ◌&&◌, List, [], ◌∷◌, ◌++◌, map, Option, none, some, Result, ok, err,
  network_x_error, ◌>>=◌, any, traverse, is_some, ◌==◌, if◌then◌else◌,
}
use mathlib.Core.List.{flatten}
use frenetic.Base.Text.{Text}
use frenetic.Syntax.Ast.{Policy}
use frenetic.Discovery.Graph.{Node, switch, host, SwitchRef, DiGraph}

pub data Mode : Type 0 where
  internal_discovery host_discovery other_mode : Mode

-- The objects that are registered.
pub data Observer : Type 0 where
  topology routing : Observer

pub record State (G : Type 0) : Type 0 where
  pub network : G
  pub mode : Mode
  pub observers : List Observer
  pub clean : Bool

-- What is sent with `update`, by which application.
abbrev pub Updates : Type 0
Updates = List (Observer × Policy)

module _ {G : Type 0} (d : DiGraph G) where
  -- State()
  abbrev pub init : State G
  init = record { network = d.empty; mode = internal_discovery; observers = []; clean = true }

  unfoldable pub set_mode : Mode → State G → State G
  set_mode mode s = record s { mode = mode }

  -- A registration is for a set, so a second one changes nothing.
  abbrev same_observer : Observer → Observer → Bool
  same_observer topology topology = true
  same_observer routing routing = true
  same_observer _ _ = false

  unfoldable pub register : Observer → State G → State G
  register o s =
      if any (same_observer o) s.observers
      then s
      else record s { observers = s.observers ++ o ∷ [] }

  abbrev refs_of : Option SwitchRef → List SwitchRef
  refs_of none = []
  refs_of (some r) = r ∷ []

  -- switches().values()
  unfoldable pub switches : State G → List SwitchRef
  switches s = flatten (map (λ n. refs_of (d.switch_ref n s.network)) (d.nodes s.network))

  abbrev host_names : Node → List Text
  host_names (host mac) = mac ∷ []
  host_names n = []

  unfoldable pub hosts : State G → List Text
  hosts s = flatten (map host_names (d.nodes s.network))

  abbrev pub is_label : ℕ → Option ℕ → Bool
  is_label port none = false
  is_label port (some l) = l == port

  -- The port is the label of an edge to a switch. That an edge between switches has no label, which
  -- would be a KeyError, does not come about.
  unfoldable pub is_internal : State G → ℕ → ℕ → Bool
  is_internal s sw port =
      any (λ e. is_some (d.switch_ref e.0 s.network) && is_label port e.1)
        (d.out_edges (switch sw) s.network)

  -- The ports that are left of a list.
  unfoldable pub external_ports : State G → ℕ → List ℕ → List (ℕ × ℕ)
  external_ports s sw [] = []
  external_ports s sw (p ∷ ps) =
      if is_internal s sw p then external_ports s sw ps else (sw, p) ∷ external_ports s sw ps

  unfoldable pub network_edge : State G → List (ℕ × ℕ)
  network_edge s = flatten (map (λ r. external_ports s r.0 r.1) (switches s))

  -- run_update of the observers, which may raise an exception: then the state stays unclean, and the
  -- updates that were sent before are left out of the result.
  module _ (run_update : Observer → State G → Result Policy) where
    abbrev update_of : State G → Observer → Result (Observer × Policy)
    update_of s o = run_update o s >>= λ p. ok (o, p)

    abbrev pub notified : State G → Result Updates → State G × Result Updates
    notified s (ok us) = (record s { clean = true }, ok us)
    notified s (err e) = (s, err e)

    unfoldable pub notify : State G → State G × Result Updates
    notify s =
        if s.clean
        then (record s { clean = true }, ok [])
        else notified s (traverse (update_of s) s.observers)

    -- __cleanup
    abbrev pub cleanup : Bool → State G → State G × Result Updates
    cleanup force_notify s =
        let s' = record s { clean = false } in if force_notify then notify s' else (s', ok [])

    unfoldable pub add_switch : ℕ → List ℕ → Bool → State G → State G × Result Updates
    unfolding notify
    add_switch switch_id switch_ports force_notify s =
        if d.has_node (switch switch_id) s.network
        then (s, ok [])
        else cleanup force_notify (record s {
          network = d.add_node (switch switch_id) (some (switch_id, switch_ports)) s.network;
        })

    unfoldable pub add_host : Node → Bool → State G → State G × Result Updates
    unfolding notify
    add_host n force_notify s =
        if d.has_node n s.network
        then (s, ok [])
        else cleanup force_notify (record s { network = d.add_node n none s.network })

    -- The edges of a number that is no node are an error of the library, while a text is taken for a bunch
    -- of nodes and None for all of them.
    abbrev pub missing_switch : Node → G → Bool
    missing_switch (switch n) g = not (d.has_node (switch n) g)
    missing_switch n g = false

    -- A call that follows another one, unless that has raised an exception.
    abbrev pub and_after :
        State G × Result Updates → (State G → State G × Result Updates) → State G × Result Updates
    and_after (s, err e) k = (s, err e)
    and_after (s, ok us) k = ((k s).0, (k s).1 >>= λ vs. ok (us ++ vs))

    unfoldable pub add_edge : Node → Node → Option ℕ → Bool → State G → State G × Result Updates
    unfolding notify
    add_edge u v label force_notify s =
        if missing_switch u s.network
        then (s, err network_x_error)
        else if is_some (d.edge u v s.network)
        then (s, ok [])
        else cleanup force_notify (record s { network = d.add_edge u v label s.network })

    unfoldable pub remove_node : Node → Bool → State G → State G × Result Updates
    unfolding notify
    remove_node n force_notify s =
        if not (d.has_node n s.network)
        then (s, ok [])
        else cleanup force_notify (record s { network = d.remove_node n s.network })

    unfoldable pub remove_edge : Node → Node → Bool → State G → State G × Result Updates
    unfolding notify
    remove_edge u v force_notify s =
        if missing_switch u s.network
        then (s, err network_x_error)
        else if not (is_some (d.edge u v s.network))
        then (s, ok [])
        else cleanup force_notify (record s { network = d.remove_edge u v s.network })
