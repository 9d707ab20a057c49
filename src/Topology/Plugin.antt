-- ===== src/Topology/Plugin.antt =====
-- The methods that the scheduler framework calls, of pkg/topologyscheduling/topology_scheduling.go.
-- The framework's CycleState is a parameter. A method takes the state and the heap of the counters
-- and returns, beside its status, those that it changed.
pub mod Cycle
pub mod Filtering
use super_scheduling.Prelude.{
  ◌≡◌, Bool, not, Option, none, some, List, [], ◌∷◌, String, lookup, ℤ, pos, negsuc, ltb_ℤ, Run,
  returns, panics, ◌>>=◌, Result, ok, err, message, wrap, string_eq, if◌then◌else◌,
}
use super_scheduling.Api.Kubernetes.{Pod, Node, NodeInfo, Selector, Functions}
use super_scheduling.Api.Scheduling.{
  TopologyPair, topology_pair_eq, TopologySchedulingConstraint, TopologySchedulingPolicy,
  TopologySchedulingPolicySpec,
}
use super_scheduling.Api.Framework.{
  CycleState, NodeInfoLister, TopologySchedulingPolicyLister, Status, nil, as_status, new_status,
  success, unschedulable, unschedulable_and_unresolvable, error,
}
use super_scheduling.Util.{topology_scheduling_label_key}
use super_scheduling.Topology.Counters.{Heap, view}
use super_scheduling.Topology.State.{PreFilterState, update_with_pod}
use super_scheduling.Topology.PreFilter.{TopologyScheduling, calculate_pre_filter_state_cache}
use super_scheduling.Topology.Checks.{
  pod_require_topology_scheduling, check_policy_requirement_reached, check_topo_value_reached,
}
use super_scheduling.Topology.Score.{Float64}
use super_scheduling.Topology.Nodes.{succeeded, node_of, filter_state, score_state}

-- What the plugins store in a CycleState: this plugin's state, which may be a nil pointer, or the
-- data of another plugin.
pub data StateData : Type 0 where
  pre_filter : Option PreFilterState → StateData
  other : StateData

abbrev pub pre_filter_state_key : String
pre_filter_state_key = "PreFilterTopologyScheduling"

module _ (cs : CycleState StateData) where
  open cs use {State, read, write}

  -- The text of the last error also shows the data.
  as_pre_filter_state : StateData → Result (Option PreFilterState)
  as_pre_filter_state (pre_filter s) = ok s
  as_pre_filter_state other = err (message "convert to podtopologyspread.preFilterState error")

  unfoldable pub get_pre_filter_state : State → Result (Option PreFilterState)
  unfolding as_pre_filter_state
  get_pre_filter_state cycle_state = elim (read cycle_state pre_filter_state_key) [
    | err e ↦ err (wrap "reading \"PreFilterTopologyScheduling\" from cycleState" e)
    | ok c ↦ as_pre_filter_state c
  ]

  module _ {LabelSelector : Type 0} where
    unfoldable pub pre_filter_method :
        Functions LabelSelector
        → (List NodeInfo → List NodeInfo)
        → TopologyScheduling LabelSelector
        → State
        → Pod
        → Heap
        → Run (Status × State × Heap)
    pre_filter_method k8s parallelize ts state pod h =
        if not (pod_require_topology_scheduling pod)
        then returns (nil, state, h)
        else calculate_pre_filter_state_cache k8s parallelize ts pod h >>= λ (r, h'). elim r [
          | err e ↦ returns (as_status e, state, h')
          | ok s ↦ returns (nil, write state pre_filter_state_key (pre_filter s), h')
        ]

    unfoldable pub filter :
        TopologyScheduling LabelSelector → State → Pod → NodeInfo → Heap → Run Status
    unfolding filter_state
    filter ts state pod node_info h =
        if not (pod_require_topology_scheduling pod) then returns nil else elim node_info.node [
          | none ↦ returns (as_status (message "node not found"))
          | some node ↦ elim (get_pre_filter_state state) [
            | err e ↦ returns (as_status e)
            | ok s ↦ elim (lookup topology_scheduling_label_key pod.labels) [
              | none ↦ returns nil
              | some policy_name ↦ elim (ts.topology_policy_lister.get pod.namespace policy_name) [
                | err e ↦ returns (as_status (wrap "obtaining pod's topology policy" e))
                | ok tsp ↦ filter_state s tsp pod node h
              ]
            ]
          ]
        ]

  -- AddPod and RemovePod: `delta` is 1 for the one and -1 for the other.
  change_pod : ℤ → State → Pod → Pod → NodeInfo → Heap → Run (Status × Heap)
  change_pod delta cycle_state pod_to_schedule pod node_info h =
      if not (pod_require_topology_scheduling pod_to_schedule)
      then returns (succeeded, h)
      else elim (get_pre_filter_state cycle_state) [
        | err e ↦ returns (as_status e, h)
        | ok s ↦ update_with_pod s pod pod_to_schedule node_info.node delta h >>= λ h'.
            returns (succeeded, h')
      ]

  unfoldable pub add_pod : State → Pod → Pod → NodeInfo → Heap → Run (Status × Heap)
  unfolding change_pod
  add_pod = change_pod (pos 1)

  unfoldable pub remove_pod : State → Pod → Pod → NodeInfo → Heap → Run (Status × Heap)
  unfolding change_pod
  remove_pod = change_pod (negsuc 0)

  module _ {LabelSelector : Type 0} where
    unfoldable pub reserve :
        TopologyScheduling LabelSelector → State → Pod → String → Heap → Run (Status × Heap)
    unfolding node_of
    reserve ts state pod node_name h =
        if not (pod_require_topology_scheduling pod)
        then returns (succeeded, h)
        else elim (get_pre_filter_state state) [
          | err e ↦ returns (as_status e, h)
          | ok s ↦ elim (ts.framework_handle.get node_name) [
            | err e ↦ returns (as_status e, h)
            | ok node ↦
                update_with_pod s pod pod (node_of node) (pos 1) h >>= λ h'. returns (succeeded, h')
          ]
        ]

    unfoldable pub unreserve :
        TopologyScheduling LabelSelector → State → Pod → String → Heap → Run Heap
    unfolding node_of
    unreserve ts state pod node_name h =
        if not (pod_require_topology_scheduling pod)
        then returns h
        else elim (get_pre_filter_state state) [
          | err e ↦ returns h
          | ok s ↦ elim (ts.framework_handle.get node_name) [
            | err e ↦ returns h
            | ok node ↦ update_with_pod s pod pod (node_of node) (negsuc 0) h
          ]
        ]

    -- A state that cannot be read scores 0, with no error.
    unfoldable pub score_method :
        Float64 → TopologyScheduling LabelSelector → State → Pod → String → Heap → ℤ × Status
    unfolding score_state
    score_method f ts state pod node_name h =
        if not (pod_require_topology_scheduling pod)
        then (pos 0, succeeded)
        else elim (get_pre_filter_state state) [
          | err e ↦ (pos 0, succeeded)
          | ok s ↦ score_state f ts s node_name h
        ]
