-- ===== src/Tests/Scripts.antt =====
-- The theorems on the topology scripts, at concrete inputs.
use frenetic.Base.{◌≡◌, refl, ◌++◌, map, ok, index_error, failure, some, arith}
use frenetic.Base.Int.{pos, sub_ℕ}
use frenetic.Base.Text.{codes}
use frenetic.Base.Decimal.{show, parse_int}
use frenetic.Topologies.Graph.{host_node, switch_node}
use frenetic.Topologies.Loops.{range, upto}
use frenetic.Topologies.Fattree as Fattree
use frenetic.Topologies.Fattree.Even.{fattree, mk_topo-even}
use frenetic.Topologies.Tree as Tree
use frenetic.Topologies.Tree.{match_bandwidth, multiply}
use frenetic.Topologies.Tree.Nodes.{switches, hosts}
use frenetic.Topologies.Tree.Levels.{links_from, mk_topo-levels}

mk_topo-even_example :
    Fattree.mk_topo 4 (codes "1Gbps") show show
    ≡ ok (record {
      nodes =
          map (host_node show show) (range 1 16)
          ++ map switch_node (range 1 4)
          ++ map switch_node (range 5 16);
      edges = fattree 2 (codes "1Gbps");
    })
mk_topo-even_example = mk_topo-even 2 (codes "1Gbps") show show

-- With three pods, the hosts run out.
fattree-odd : failure (Fattree.mk_topo 3 (codes "1Gbps") show show) ≡ some index_error
unfolding Fattree.mk_topo host_node switch_node
fattree-odd = refl

gbps-matches : match_bandwidth (codes "10Gbps") ≡ some (codes "10", codes "Gbps")
unfolding match_bandwidth
gbps-matches = refl

mk_topo-levels_example :
    Tree.mk_topo 2 3 (codes "10Gbps") (pos 1) show show
    ≡ ok (record {
      nodes = switches show show 2 3 ++ hosts show show 2 3;
      edges = upto 3 (links_from show show 2 3 (codes "10Gbps") (pos 1) (pos 10) (codes "Gbps"));
    })
mk_topo-levels_example =
    mk_topo-levels show show 2 3 (codes "10Gbps") (pos 1) (pos 10) (codes "Gbps") (codes "10")
      (omega arith) gbps-matches (unfold parse_int in refl)

-- The fifth parent of a level has a negative capacity in a tree of depth 3.
negative : multiply (sub_ℕ 3 4) (codes "10Gbps") (pos 1) ≡ ok (codes "-10Gbps")
unfolding multiply match_bandwidth parse_int show
negative = refl
