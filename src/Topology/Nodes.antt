-- ===== src/Topology/Nodes.antt =====
-- The parts of Filter and Score that work on one node, of
-- pkg/topologyscheduling/topology_scheduling.go.
pub mod Admission
use super_scheduling.Prelude.{
  Bool, not, Option, none, some, List, [], ◌∷◌, String, lookup, ℤ, pos, ltb_ℤ, Run, returns, panics,
  ok, err, string_eq, if◌then◌else◌,
}
use super_scheduling.Api.Kubernetes.{Pod, Node, NodeInfo, Selector}
use super_scheduling.Api.Scheduling.{
  TopologyPair, topology_pair_eq, TopologySchedulingConstraint, TopologySchedulingPolicy,
  TopologySchedulingPolicySpec,
}
use super_scheduling.Api.Framework.{
  NodeInfoLister, Status, nil, new_status, success, unschedulable, unschedulable_and_unresolvable,
  error,
}
use super_scheduling.Topology.Counters.{Heap, view}
use super_scheduling.Topology.State.{PreFilterState}
use super_scheduling.Topology.PreFilter.{TopologyScheduling}
use super_scheduling.Topology.Checks.{check_policy_requirement_reached, check_topo_value_reached}
use super_scheduling.Topology.Score.{Float64, score}

abbrev pub err_reason_constraints_not_match : String
err_reason_constraints_not_match = "node(s) didn't match pod topology spread constraints"

abbrev pub err_reason_node_label_not_match : String
err_reason_node_label_not_match =
    "node(s) didn't match pod topology spread constraints (missing required label)"

abbrev pub succeeded : Status
succeeded = new_status success ("" ∷ [])

-- `node.Node()`, also of a nil pointer.
unfoldable pub node_of : Option NodeInfo → Option Node
node_of none = none
node_of (some n) = n.node

-- From the node's labels on; the pair's count is compared with the replicas of its value.
unfoldable pub score_node : Float64 → PreFilterState → Node → Heap → ℤ × Status
score_node f s node h = elim (lookup s.constraint.topology_key node.labels) [
  | none ↦ (pos 0, succeeded)
  | some tpval ↦ elim (lookup tpval s.constraint.schedule_policy) [
    | none ↦ (pos 0, succeeded)
    | some desired ↦
        elim (view s.tp_pair_to_match_num h
          (record { key = s.constraint.topology_key; value = tpval })) [
            | none ↦ (pos 0, succeeded)
            | some count ↦
                if not (ltb_ℤ count desired)
                then (pos 0, succeeded)
                else (score f count desired s.schedule_strategy, succeeded)
          ]
  ]
]

module _ {LabelSelector : Type 0} where
  -- The end of Filter, from the test of the selector on.
  unfoldable pub filter_node :
      PreFilterState → TopologySchedulingPolicy LabelSelector → Pod → Node → Heap → Status
  filter_node s tsp pod node h =
      let tp_key = tsp.spec.topology_key in
      let policy = s.constraint.schedule_policy in
      let counts = s.tp_pair_to_match_num in
      if not (s.constraint.selector.matches pod.labels)
      then new_status unschedulable (err_reason_constraints_not_match ∷ [])
      else elim (lookup tp_key node.labels) [
        | none ↦ new_status unschedulable_and_unresolvable (err_reason_node_label_not_match ∷ [])
        | some tp_val ↦
            if check_policy_requirement_reached tp_key policy counts h
            then nil
            else if not (check_topo_value_reached tp_key tp_val policy counts h)
            then nil
            else new_status unschedulable (err_reason_constraints_not_match ∷ [])
      ]

  -- A state that is a nil pointer is dereferenced.
  unfoldable pub filter_state :
      Option PreFilterState
      → TopologySchedulingPolicy LabelSelector
      → Pod
      → Node
      → Heap
      → Run Status
  unfolding filter_node
  filter_state none tsp pod node h = panics
  filter_state (some s) tsp pod node h = returns (filter_node s tsp pod node h)

  -- A state that is a nil pointer scores 0.
  unfoldable pub score_state :
      Float64
      → TopologyScheduling LabelSelector
      → Option PreFilterState
      → String
      → Heap
      → ℤ × Status
  unfolding score_node node_of
  score_state f ts none node_name h = (pos 0, succeeded)
  score_state f ts (some s) node_name h = elim (ts.framework_handle.get node_name) [
    | err e ↦ (pos 0, new_status error ("node not exist" ∷ []))
    | ok node ↦ elim (node_of node) [
      | none ↦ (pos 0, new_status error ("node not exist" ∷ []))
      | some n ↦ score_node f s n h
    ]
  ]
