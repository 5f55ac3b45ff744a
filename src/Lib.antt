-- ===== src/Lib.antt =====
-- The Python client of Frenetic: the NetKAT language that a network application writes its
-- policies in, and what the client and the example applications do with packets.
--
-- The parts of the program, and the files that model them:
--
--   lang/python/frenetic/syntax.py, the language. `Syntax.Ast` has its classes as data types: header
--   values, predicates and policies (a subclass of MultiPred or SinglePolicy is the wrapper with what
--   its constructor expands to). `Syntax.Build` has the operators &, |, ~, >> and the constructors
--   with their assertions, `Syntax.Sugar` the families ...Eq, ...NotEq and Set... over init_int_eq,
--   init_str_eq, int_policy and str_policy, `Syntax.Print` the methods `to_json`. `PacketOut` has the
--   class of that name with its payloads. `Value` has the Python 2 values that a caller may pass, and
--   `Json` the documents.
--
--   lib/Frenetic_NetKAT_Json.ml, _Optimize.ml and _Semantics.ml, the controller's end of the wire.
--   `Netkat.Read` reads a document as a policy, `Netkat.Smart` has the smart constructors that it
--   calls, `Netkat.Eval` the evaluation of policies without links and iteration, which the client
--   never sends, and `Netkat.Address` has mac_of_string and ip_of_string of lib/Frenetic_Packet.ml, with
--   Str.split and the of_string of OCaml's library. `Syntax.Meaning` is a specification, on the client's own classes, of what a predicate
--   holds of and what a policy makes of a packet, and `Syntax.Wire` relates the two ends.
--   `Messages.Controller` has event_to_json and pkt_out_from_json.
--
--   lang/python/frenetic/syntax.py, the messages: `Messages.Defs` has PacketIn, Payload.from_json, Stats
--   and CompilerOptions, over the decoder of Base64 of Python 2.7 in `Base.Base64`.
--
--   lang/python/frenetic/__init__.py, the class App. `Messages.Dispatch` has the dispatch of an event to
--   a handler. `Client.Loop` has the connection and the polling as a machine: its phase is the request
--   that is under way or the timer, its input an answer or the timer's end, and an application is a
--   parameter, a state with its handlers. `Client.Methods` has the bodies of the requests that an
--   application sends, and `Client.Requests` the requests with their addresses. A handler of the
--   repeater or of the learning switch ends with `Client.Methods.sends`, since `update` prints the policy,
--   which may raise an exception.
--
--   lang/python/frenetic/net_utils.py, addresses and networks: `NetUtils`. Python's integers are
--   unbounded and signed, so `Base.Int` has the bit operations on signed numbers.
--
--   lang/python/frenetic/packet.py: `Packet` has from_payload, matches and to_payload. The parser and
--   the serializer of the library ryu are parameters of the definitions that call them.
--
--   lang/python/frenetic/examples: `Apps.LoadBalancer`, `Apps.Firewall`, `Apps.Learning` and
--   `Apps.Forwarding` model load_balancer.py, firewall.py, learning.py and
--   single_switch_forwarding.py. A handler of the firewall or of the learning switch returns its
--   state beside its outcome, since what it wrote before an exception stays written. `Apps.Flood` and
--   `Apps.Repeater` model flood_switch.py and repeater.py, and `Apps.Small` the applications
--   packet_in_out.py, silly.py, pipe.py and port_count.py. `Apps.Firewall.Cleaning` has the rounds of
--   run_clean as a machine that is driven by the counts that the controller sends, and
--   `Apps.Repeater.Live` the repeater as an application of the client in `Client.Loop`.
--
--   lang/python/frenetic/examples/discovery: `Discovery.State` has state.py, `Discovery.Probe` probe.py,
--   `Discovery.Topology` and `Discovery.PacketIn` topology.py, and `Discovery.Routing` routing.py in its
--   version 1. `Discovery.Routing.Weighted` has both versions, with the weights as a function of two
--   nodes. `Discovery.Weights` has the counts of a link and their moving average in topology.py, over
--   an interface of floats, and in `Discovery.Weights.Round` the requests for the counters as a machine
--   that is driven by the answers. The library networkx is the interface `Discovery.Graph.DiGraph`, an
--   argument of what uses it, with its documented behaviour as the laws `IsDiGraph`, which the graphs of `Discovery.Graph.Lists` satisfy;
--   has_path with shortest_path is a parameter. What an observer's run_update comes to is a parameter of
--   the state.
--
--   topology/scripts: `Topologies.Fattree`, `Topologies.Tree` and `Topologies.Digraph` model mk_topo of
--   fattree.py and tree.py and convert of graph2digraph.py. A graph is what is added to it, in the order
--   of the calls of networkx, and the texts that the library netaddr makes of a number are parameters.
--
-- An exception is an error of `Base.Outcome`, by its class. A text is a list of byte values, and
-- `int` of a text is `Base.Decimal.parse_int`. The type `int` of Python 2 has 64 bits: a larger number
-- is a `long`, which the assertions refuse. A dictionary and a set are lists in the order of
-- insertion, so where the order of a dictionary shows in a policy, the model has one of the orders
-- that the program may choose. The clock is a number that the caller passes. In the reader, a
-- header keeps the text of its address, in the place of the number that `Netkat.Address` reads from it; a
-- text from which it reads none is refused. An `int` of the controller has 63 bits, so the reader takes no
-- number from 2 ^ 62 on, and no event with such a number is printed. The set of packets that an evaluation yields is the list in which it meets them.
-- All recursion is structural: on policies, documents, lists of headers and lists of events.
--
-- The controller's Base64 library is a parameter. The machine of the event loop has no fuel: it takes
-- one step for each input of a list.
--
-- Not modelled: the printing for people and the arguments of the scripts, which are input and output,
-- and so is topology/scripts/watchdot.py;
-- lang/python/frenetic/examples/discovery/flood_switch.py, a second copy of flood_switch.py; the test
-- data writer lib_test/openflow_unit_test_writer.py; the scripts under examples, integration and bench
-- that start a network in the emulator Mininet; and the rest of the controller.
pub mod Base
pub mod Value
pub mod Json
pub mod Syntax
pub mod Netkat
pub mod NetUtils
pub mod Packet
pub mod PacketOut
pub mod Messages
pub mod Client
pub mod Apps
pub mod Discovery
pub mod Topologies
pub mod Tests
