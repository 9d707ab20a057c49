-- ===== src/Topology/PreFilter.antt =====
-- The computation of PreFilter: `calculatePreFilterStateCache` and `countPodsMatchSelector` of
-- pkg/topologyscheduling/topology_scheduling.go.
pub mod Matching
pub mod Counts
pub mod Totals
pub mod Calculate
use super_scheduling.Prelude.{
  ℕ, ◌+◌, Bool, not, ◌||◌, Option, none, some, List, [], ◌∷◌, ◌++◌, String, Map, lookup, insert,
  length, get_elem?, ℤ, pos, int32, Run, returns, panics, ◌>>=◌, Result, ok, err, message, wrap,
  ◌==◌, string_eq, if◌then◌else◌, true, false,
}
use super_scheduling.Api.Kubernetes.{Pod, Node, NodeInfo, Selector, Functions, label_value}
use super_scheduling.Api.Scheduling.{
  TopologyPair, topology_pair_eq, TopologySchedulingConstraint, TopologySchedulingPolicy,
  TopologySchedulingPolicySpec,
}
use super_scheduling.Api.Framework.{NodeInfoLister, TopologySchedulingPolicyLister}
use super_scheduling.Util.{topology_scheduling_label_key, covert_policy}
use super_scheduling.Topology.Counters.{Address, Heap, add_cell}
use super_scheduling.Topology.State.{PreFilterState}

-- The plugin: its snapshot of the nodes and its policies. `handle` has the part of
-- framework.Handle that is called; `podLister` is never read.
pub record TopologyScheduling (LabelSelector : Type 0) : Type 0 where
  pub framework_handle : NodeInfoLister
  pub topology_policy_lister : TopologySchedulingPolicyLister LabelSelector

unfoldable pub is_some {ℓ} : {A : Type ℓ} → Option A → Bool
is_some none = false
is_some (some a) = true

-- A nil entry, a terminating pod and a pod of another namespace are passed over.
unfoldable pub count_pod : Option Pod → Selector → String → ℕ
unfolding is_some
count_pod none selector ns = 0
count_pod (some pod) selector ns =
    if is_some pod.deletion_timestamp || not (pod.namespace == ns)
    then 0
    else if selector.matches pod.labels
    then 1
    else 0

unfoldable pub count_pod_infos : List (Option Pod) → Selector → String → ℕ → ℕ
count_pod_infos [] selector ns count = count
count_pod_infos (p ∷ pod_infos) selector ns count =
    count_pod_infos pod_infos selector ns (count + count_pod p selector ns)

-- Go's `int` has 64 bits: the count of the pods of one node does not reach its bound.
unfoldable pub count_pods_match_selector : List (Option Pod) → Selector → String → ℕ
unfolding count_pod_infos count_pod
count_pods_match_selector pod_infos selector ns = count_pod_infos pod_infos selector ns 0

module _ {LabelSelector : Type 0} (k8s : Functions LabelSelector) where
  -- The pair for which the first loop makes a counter at a node, if any.
  initial_pair : String → Pod → NodeInfo → Option TopologyPair
  initial_pair key pod n = elim n.node [
    | none ↦ none
    | some node ↦
        if not (k8s.pod_matches_node_selector_and_affinity_terms pod node)
        then none
        else elim (lookup key node.labels) [
          | none ↦ none
          | some tpval ↦ some (record { key = key; value = tpval })
        ]
  ]

  -- The first loop over the nodes: a zero counter for each pair of a node that fits the pod.
  pub init_pairs :
      String
      → Pod
      → List NodeInfo
      → Map TopologyPair Address
      → Heap
      → Map TopologyPair Address × Heap
  init_pairs key pod [] m h = (m, h)
  init_pairs key pod (n ∷ nodes) m h = elim (initial_pair key pod n) [
    | none ↦ init_pairs key pod nodes m h
    | some pair ↦ init_pairs key pod nodes (insert pair (length h) m) (h ++ pos 0 ∷ [])
  ]

-- The work on one node: the matching pods of the node are added to its pair's counter. The node
-- is dereferenced with no test for nil.
pub process_node :
    String → Selector → String → Map TopologyPair Address → NodeInfo → Heap → Run Heap
process_node key selector ns m n h = elim n.node [
  | none ↦ panics
  | some node ↦ elim (lookup (record { key = key; value = label_value key node.labels }) m) [
    | none ↦ returns h
    | some tp_count ↦
        add_cell (some tp_count) (int32 (pos (count_pods_match_selector n.pods selector ns))) h
  ]
]

-- The additions are atomic: the nodes are taken in the order in which they are made.
pub process_nodes :
    String → Selector → String → Map TopologyPair Address → List NodeInfo → Heap → Run Heap
process_nodes key selector ns m [] h = returns h
process_nodes key selector ns m (n ∷ nodes) h =
    process_node key selector ns m n h >>= process_nodes key selector ns m nodes

-- The state that PreFilter stores, with the heap; or the error that it returns.
abbrev pub Calculated : Type 0
Calculated = Result (Option PreFilterState) × Heap

module _ {LabelSelector : Type 0} (k8s : Functions LabelSelector)
    (parallelize : List NodeInfo → List NodeInfo) where
  -- From the policy, the nodes and the parsed selector to the state.
  count_nodes :
      TopologySchedulingPolicy LabelSelector
      → List NodeInfo
      → Selector
      → Pod
      → Heap
      → Run Calculated
  count_nodes tsp all_nodes selector pod h =
      let key = tsp.spec.topology_key in
      let (m, h') = init_pairs k8s key pod all_nodes [] h in
      process_nodes key selector pod.namespace m (parallelize all_nodes) h' >>= λ h''. returns (
        ok (
            some (record {
              constraint = record {
                topology_key = key;
                schedule_policy = covert_policy tsp.spec.deploy_placement;
                selector = selector;
              };
              tp_pair_to_match_num = m;
              schedule_strategy = tsp.spec.schedule_strategy;
            })),
        h'',
      )

  -- `parallelize` is the order that workqueue.ParallelizeUntil's workers give to the nodes.
  unfoldable pub calculate_pre_filter_state_cache :
      TopologyScheduling LabelSelector → Pod → Heap → Run Calculated
  unfolding count_nodes initial_pair init_pairs process_node process_nodes
  calculate_pre_filter_state_cache ts pod h =
      elim (lookup topology_scheduling_label_key pod.labels) [
        | none ↦ returns (ok none, h)
        | some policy_name ↦ elim (ts.topology_policy_lister.get pod.namespace policy_name) [
          | err e ↦ returns (err (wrap "obtaining pod's topology policy" e), h)
          | ok tsp ↦ elim ts.framework_handle.list [
            | err e ↦ returns (err (wrap "listing NodeInfos" e), h)
            | ok all_nodes ↦ elim (k8s.label_selector_as_selector tsp.spec.label_selector) [
              | err e ↦ returns (err e, h)
              | ok selector ↦ count_nodes tsp all_nodes selector pod h
            ]
          ]
        ]
      ]
