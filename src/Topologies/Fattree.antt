-- ===== src/Topologies/Fattree.antt =====
-- topology/scripts/fattree.py: mk_topo, for a number of pods that is not negative.
pub mod Even
use frenetic.Base.{ℕ, ◌+◌, ◌-◌, ◌*◌, ◌/◌, ◌^◌, List, [], ◌∷◌, ◌++◌, map, Result, ok, ◌>>=◌}
use frenetic.Base.Text.{Text}
use frenetic.Topologies.Graph.{Node, Edge, Graph, number, link, host_node, switch_node}
use frenetic.Topologies.Loops.{range, elem, for_each}

-- The links of this script all have the cost 1.
abbrev pub wire : Text → Text → ℕ → Text → ℕ → List Edge
wire bw a p b q = link a p b q bw (number 1)

module _ (pods : ℕ) (bw : Text) where
  -- A link to the core switch at the offset, which is stepped on.
  abbrev pub to_core : List Node → ℕ → Node → ℕ → ℕ → Result (ℕ × List Edge)
  to_core core_switches pod switch port core_offset = do
    core_switch ← elem core_switches core_offset
    ok (core_offset + 1, wire bw switch.0 port core_switch.0 pod)

  -- A link to a lower switch in the same pod
  abbrev pub to_lower : List Node → ℕ → ℕ → Node → ℕ → ℕ → Result (ℕ × List Edge)
  to_lower agg_switches pod sw switch port core_offset = do
    lower_switch ← elem agg_switches (pod * pods + port)
    ok (core_offset, wire bw switch.0 port lower_switch.0 sw)

  -- All hosts connect on port 0.
  abbrev pub to_host : List Node → Node → ℕ → ℕ → Result (ℕ × List Edge)
  to_host hosts switch port host_offset = do
    host ← elem hosts host_offset
    ok (host_offset + 1, wire bw switch.0 port host.0 0)

  abbrev pub upper_links : List Node → List Node → ℕ → ℕ → ℕ → Result (ℕ × List Edge)
  upper_links core_switches agg_switches pod sw core_offset = do
    switch ← elem agg_switches (pod * pods + sw)
    up ← for_each (to_core core_switches pod switch) (range 0 (pods / 2)) core_offset
    down ← for_each (to_lower agg_switches pod sw switch) (range (pods / 2) (pods - pods / 2)) up.0
    ok (down.0, up.1 ++ down.1)

  abbrev pub lower_links : List Node → List Node → ℕ → ℕ → ℕ → Result (ℕ × List Edge)
  lower_links hosts agg_switches pod sw host_offset = do
    switch ← elem agg_switches (pod * pods + sw)
    for_each (to_host hosts switch) (range (pods / 2) (pods - pods / 2)) host_offset

  abbrev pub pod_links : List Node → List Node → List Node → ℕ → ℕ → Result (ℕ × List Edge)
  pod_links hosts core_switches agg_switches pod host_offset = do
    upper ← for_each (upper_links core_switches agg_switches pod) (range 0 (pods / 2)) 0
    lower ←
        for_each (lower_links hosts agg_switches pod) (range (pods / 2) (pods - pods / 2))
          host_offset
    ok (lower.0, upper.1 ++ lower.1)

  unfoldable pub mk_topo : (eui ip_address : ℕ → Text) → Result Graph
  unfolding host_node switch_node
  mk_topo eui ip_address =
      let num_hosts = pods ^ 3 / 4 in
      let num_agg_switches = pods * pods in
      let num_core_switches = pods * pods / 4 in
      let hosts = map (host_node eui ip_address) (range 1 num_hosts) in
      let core_switches = map switch_node (range 1 num_core_switches) in
      let agg_switches = map switch_node (range (num_core_switches + 1) num_agg_switches) in
      for_each (pod_links hosts core_switches agg_switches) (range 0 pods) 0 >>= λ links.
      ok (record { nodes = hosts ++ core_switches ++ agg_switches; edges = links.1 })
