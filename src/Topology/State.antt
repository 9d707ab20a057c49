-- ===== src/Topology/State.antt =====
-- PreFilterState of pkg/topologyscheduling/topology_scheduling.go: what PreFilter computes and the
-- later calls of a scheduling cycle read and update. The constraint and the map are never changed
-- after PreFilter; the cells of the map are.
pub mod Update
pub mod Clone
use super_scheduling.Prelude.{
  ◌++◌, Bool, not, Option, none, some, List, [], ◌∷◌, String, Map, lookup, insert, length,
  get_elem?, ℤ, Run, returns, panics, ◌>>=◌, ◌==◌, string_eq, if◌then◌else◌,
}
use super_scheduling.Api.Kubernetes.{Pod, Node}
use super_scheduling.Api.Scheduling.{TopologyPair, topology_pair_eq, TopologySchedulingConstraint}
use super_scheduling.Topology.Counters.{Address, Heap, add_cell}

pub record PreFilterState : Type 0 where
  pub constraint : TopologySchedulingConstraint
  -- the number of matching pods, by topology pair
  pub tp_pair_to_match_num : Map TopologyPair Address
  pub schedule_strategy : String

-- The last lines of `updateWithPod`, once the node is known to have the topology label.
update_labelled : PreFilterState → Pod → String → ℤ → Heap → Run Heap
update_labelled s updated_pod v delta h =
    if not (s.constraint.selector.matches updated_pod.labels)
    then returns h
    else add_cell
        (lookup (record { key = s.constraint.topology_key; value = v }) s.tp_pair_to_match_num)
        delta h

-- The receiver and the node may be nil. The result is the heap after the call.
unfoldable pub update_with_pod :
    Option PreFilterState → Pod → Pod → Option Node → ℤ → Heap → Run Heap
unfolding update_labelled
update_with_pod none updated_pod preemptor_pod _ delta h = returns h
update_with_pod (some s) updated_pod preemptor_pod none delta h = returns h
update_with_pod (some s) updated_pod preemptor_pod (some node) delta h =
    if not (updated_pod.namespace == preemptor_pod.namespace)
    then returns h
    else elim (lookup s.constraint.topology_key node.labels) [
      | none ↦ returns h
      | some v ↦ update_labelled s updated_pod v delta h
    ]

-- The loop of `Clone`: `copy` is the new map so far, and each count gets a new cell.
unfoldable pub clone_counts :
    Map TopologyPair Address
    → Map TopologyPair Address
    → Heap
    → Run (Map TopologyPair Address × Heap)
clone_counts [] copy h = returns (copy, h)
clone_counts ((tp_pair, match_num) ∷ counts) copy h = elim (get_elem? h match_num) [
  | none ↦ panics
  | some copy_count ↦ clone_counts counts (insert tp_pair (length h) copy) (h ++ copy_count ∷ [])
]

unfoldable pub clone : Option PreFilterState → Heap → Run (Option PreFilterState × Heap)
unfolding clone_counts
clone none h = returns (none, h)
clone (some s) h = clone_counts s.tp_pair_to_match_num [] h >>= λ (copy, h').
    returns (some (record s { tp_pair_to_match_num = copy }), h')
