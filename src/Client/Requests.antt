-- ===== src/Client/Requests.antt =====
-- lang/python/frenetic/__init__.py: the requests of App, with their addresses. A body is the document that
-- json.dumps prints.
use mathlib.Core.List.{append_cancel_left, append_cancel_right}
use frenetic.Base.{ℕ, ◌++◌, Option, none, some, Result, ok, ◌>>=◌, >>=-eq-ok, ◌≡◌, sym, ap, ◌∙◌}
use frenetic.Base.Text.{Text, codes}
use frenetic.Base.Decimal.{show}
use frenetic.Json.{Json}
use frenetic.Syntax.Ast.{Policy}
use frenetic.PacketOut.Defs.{Payload, Policies}
use frenetic.Value.{Atom}
use frenetic.Messages.Defs.{CompilerOptions}
use frenetic.Client.Methods.{pkt_out, update, config}

pub data Method : Type 0 where
  get post : Method

pub record Request : Type 0 where
  pub method : Method
  pub url : Text
  pub body : Option Json

-- The attributes that an application's class may set.
pub record Settings : Type 0 where
  pub client_id : Option Text
  pub frenetic_http_host : Option Text
  pub frenetic_http_port : Option Text

-- The attributes of the object.
pub record Address : Type 0 where
  pub client_id : Text
  pub host : Text
  pub port : Text

abbrev or_else : Text → Option Text → Text
or_else default none = default
or_else default (some t) = t

-- App.__init__, where the library uuid gives an identifier
unfoldable pub address : Text → Settings → Address
address uuid s = record {
  client_id = or_else uuid s.client_id;
  host = or_else (codes "localhost") s.frenetic_http_host;
  port = or_else (codes "9000") s.frenetic_http_port;
}

-- `"http://%s:%s/..." % (host, port, ...)`
abbrev pub at_controller : Address → Text → Text
at_controller a path = codes "http://" ++ a.host ++ codes ":" ++ a.port ++ codes "/" ++ path

abbrev get_from : Address → Text → Request
get_from a path = record { method = get; url = at_controller a path; body = none }

abbrev post_to : Address → Text → Json → Request
post_to a path j = record { method = post; url = at_controller a path; body = some j }

unfoldable pub version_request : Address → Request
version_request a = get_from a (codes "version")

unfoldable pub event_request : Address → Request
event_request a = get_from a (a.client_id ++ codes "/event")

unfoldable pub query_request : Address → Text → Request
query_request a label = get_from a (codes "query/" ++ label)

unfoldable pub port_stats_request : Address → ℕ → ℕ → Request
unfolding show
port_stats_request a switch_id port_id =
    get_from a (codes "port_stats/" ++ show switch_id ++ codes "/" ++ show port_id)

unfoldable pub current_switches_request : Address → Request
current_switches_request a = get_from a (codes "current_switches")

unfoldable pub update_request : Address → Policy → Result Request
unfolding update
update_request a policy =
    update policy >>= λ j. ok (post_to a (a.client_id ++ codes "/update_json") j)

unfoldable pub config_request : Address → CompilerOptions → Request
unfolding config
config_request a compiler_options = post_to a (codes "config") (config compiler_options)

unfoldable pub pkt_out_request :
    Address → Atom → Payload → Policies → Option Atom → Option Policies → Result Request
unfolding pkt_out
pkt_out_request a switch_id payload actions in_port policies =
    pkt_out switch_id payload actions in_port policies >>= λ j. ok (post_to a (codes "pkt_out") j)

-- run_port_stats: a response without a buffer has no document, and then nothing is called back.
unfoldable pub run_port_stats : {A : Type 0} → (Json → A) → Option Json → Option A
run_port_stats callback none = none
run_port_stats callback (some j) = some (callback j)

at_controller_inj : (a : Address) (s t : Text) → at_controller a s ≡ at_controller a t → s ≡ t
at_controller_inj a s t h =
    append_cancel_left (codes "http://" ++ a.host ++ codes ":" ++ a.port ++ codes "/") s t h

url-update_request :
    (a : Address) (p : Policy) {r : Request}
    → update_request a p ≡ ok r
    → r.url ≡ at_controller a (a.client_id ++ codes "/update_json")
unfolding update_request
url-update_request a p h =
    let (j, e, made) = >>=-eq-ok (update p) _ h in ap (λ r. r.url) (sym (ok_inj made))
  where
    ok_inj : {r q : Request} → ok r ≡ ok q → r ≡ q
    ok_inj h = cc

-- Two clients of one controller that send their policies to one address have the same identifier.
pub update_request_own :
    (a : Address) (client_id : Text) (p q : Policy) {r r' : Request}
    → update_request a p ≡ ok r
    → update_request (record a { client_id = client_id }) q ≡ ok r'
    → r.url ≡ r'.url
    → a.client_id ≡ client_id
update_request_own a client_id p q h k e =
    let eq =
      sym (url-update_request a p h)
      ∙ e
      ∙ url-update_request (record a { client_id = client_id }) q k in
    append_cancel_right a.client_id client_id (codes "/update_json") (
      at_controller_inj a (a.client_id ++ codes "/update_json") (client_id ++ codes "/update_json")
        eq)
