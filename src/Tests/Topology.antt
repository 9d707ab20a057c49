-- ===== src/Tests/Topology.antt =====
-- The theorems about the scheduler plugin at the two zones of Samples.
use super_scheduling.Prelude.{
  ◌≡◌, ◌≢◌, refl, ◌↔◌, true, none, some, List, [], ◌∷◌, String, lookup, IsMap, ℤ, pos, int32, add32,
  ◌+ℤ◌, ◌≤ℤ◌, IsInt32, all_of, any_of, sum_of, returns, panics, Returns, Result, ok, ◌==◌, ==_iff,
  string_eq, if◌then◌else◌, arith,
}
use mathlib.Core.List.Perm
use super_scheduling.Api.Kubernetes.{PodPhase, Node, NodeInfo, label_value}
use super_scheduling.Api.Scheduling.{TopologyPair, topology_pair_eq}
use super_scheduling.Api.Framework.{nil}
use super_scheduling.Util.{covert_policy}
use super_scheduling.Topology.Counters.{Address, Heap, add_cell, view, IsValid}
use super_scheduling.Topology.State.{PreFilterState, update_with_pod, clone}
use super_scheduling.Topology.State.Update.{
  IsCounted, pair_of, update_with_pod-view, update_with_pod-panics_iff,
}
use super_scheduling.Topology.State.Clone.{clone-IsValid}
use super_scheduling.Topology.PreFilter.{
  count_pods_match_selector, calculate_pre_filter_state_cache,
}
use super_scheduling.Topology.PreFilter.Totals.{Totals}
use super_scheduling.Topology.PreFilter.Counts.{total, node_total, is_present, fits_pair}
use super_scheduling.Topology.PreFilter.Calculate.{Reads, calculate_counts, calculate_nil_node}
use super_scheduling.Topology.Checks.{
  pod_require_topology_scheduling, check_policy_requirement_reached, check_topo_value_reached,
  IsReached, check_policy_requirement_reached_iff,
}
use super_scheduling.Topology.Nodes.{succeeded, filter_node}
use super_scheduling.Topology.Nodes.Admission.{Admits}
use super_scheduling.Topology.Plugin.{
  StateData, pre_filter_method, filter, add_pod, remove_pod, reserve, unreserve,
  get_pre_filter_state, pre_filter,
}
use super_scheduling.Topology.Plugin.Filtering.{snapshot_count, filter-pre_filter}
use super_scheduling.Topology.Plugin.Cycle.{remove-add, unreserve-reserve, reserve-filter}
use super_scheduling.Tests.Samples.{
  new_pod, pod_on, node_b, info_a, info_b, all_nodes, by_app, functions, policy_zone, plugin_of,
  cycle, empty_state,
}

abbrev pub same_order : List NodeInfo → List NodeInfo
same_order nodes = nodes

pub sample-Reads :
    (nodes : List NodeInfo)
    → Reads functions same_order (plugin_of nodes) new_pod policy_zone nodes by_app
unfolding lookup
sample-Reads nodes = record {
  policy_name = "policy-zone";
  named = refl;
  got = refl;
  listed = refl;
  parsed = refl;
}

filter-pre_filter_example :
    Returns
      (pre_filter_method cycle functions same_order (plugin_of all_nodes) empty_state new_pod [])
      λ r.
        (r.0 ≡ nil)
        × ((filter cycle (plugin_of all_nodes) r.1 new_pod info_b r.2 ≡ returns nil)
            ↔ Admits
                (covert_policy policy_zone.spec.deploy_placement)
                (snapshot_count functions policy_zone by_app new_pod all_nodes)
                "b")
filter-pre_filter_example =
    filter-pre_filter functions same_order cycle (plugin_of all_nodes) empty_state new_pod
      policy_zone all_nodes by_app [] info_b node_b "b" (sample-Reads all_nodes)
      (Perm.refl all_nodes) (unfold all_of is_present in refl) tt refl (unfold lookup in refl)
      (unfold lookup in refl)

calculate_counts_example :
    Returns
      (calculate_pre_filter_state_cache functions same_order (plugin_of all_nodes) new_pod [])
      λ r.
        (s : PreFilterState) × (r.0 ≡ ok (some s))
        × (s.constraint ≡ record {
          topology_key = "zone";
          schedule_policy = covert_policy policy_zone.spec.deploy_placement;
          selector = by_app;
        })
        × (s.schedule_strategy ≡ "Fill")
        × IsValid s.tp_pair_to_match_num r.1
        × ((pair : TopologyPair)
            → view s.tp_pair_to_match_num r.1 pair ≡ (
                if any_of (fits_pair functions "zone" new_pod pair) all_nodes
                then some (int32 (pos (total "zone" by_app "default" pair all_nodes)))
                else none))
        × ((pair : TopologyPair)
            → Totals "zone" by_app "default" pair all_nodes
                (total "zone" by_app "default" pair all_nodes))
calculate_counts_example =
    calculate_counts functions same_order (plugin_of all_nodes) new_pod policy_zone all_nodes by_app
      [] (sample-Reads all_nodes) (Perm.refl all_nodes) tt (unfold all_of is_present in refl)

-- The two zones count two pods and no pod.
zone_counts :
    (total "zone" by_app "default" (record { key = "zone"; value = "a" }) all_nodes ≡ 2)
    × (total "zone" by_app "default" (record { key = "zone"; value = "b" }) all_nodes ≡ 0)
unfolding total node_total count_pods_match_selector label_value lookup sum_of
zone_counts = (refl, refl)

abbrev missing_node : NodeInfo
missing_node = record { node = none; pods = [] }

calculate_nil_node_example :
    calculate_pre_filter_state_cache functions same_order
      (plugin_of (info_a ∷ missing_node ∷ []))
      new_pod
      []
    ≡ panics
calculate_nil_node_example =
    calculate_nil_node functions same_order (plugin_of (info_a ∷ missing_node ∷ [])) new_pod
      policy_zone (info_a ∷ missing_node ∷ []) by_app [] (sample-Reads (info_a ∷ missing_node ∷ []))
      (Perm.refl (info_a ∷ missing_node ∷ [])) tt (unfold all_of is_present in refl)

abbrev zone : String → TopologyPair
zone v = record { key = "zone"; value = v }

abbrev sample : PreFilterState
sample = record {
  constraint = record {
    topology_key = "zone";
    schedule_policy = ("a", pos 2) ∷ ("b", pos 1) ∷ [];
    selector = by_app;
  };
  tp_pair_to_match_num = (zone "a", 0) ∷ (zone "b", 1) ∷ [];
  schedule_strategy = "Fill";
}

abbrev heap : Heap
heap = pos 2 ∷ pos 0 ∷ []

sample-IsValid : IsValid sample.tp_pair_to_match_num heap
unfolding lookup IsMap
sample-IsValid = record {
  distinct = (refl, (refl, tt));
  bounded = λ k a found. ground arith;
  unshared = λ j k a p q.
      ground
        (arith, ==_iff (zone "a") j, ==_iff (zone "a") k, ==_iff (zone "b") j, ==_iff (zone "b") k);
  int32s = omega arith;
}

sample-IsCounted : IsCounted sample new_pod new_pod node_b "b"
unfolding lookup
sample-IsCounted = record { namespace = refl; labelled = refl; matches = refl }

clone-IsValid_example : Returns (clone (some sample) heap) λ r.
    (t : PreFilterState) × (r.0 ≡ some t)
    × (t.constraint ≡ sample.constraint)
    × (t.schedule_strategy ≡ sample.schedule_strategy)
    × IsValid t.tp_pair_to_match_num r.1
    × ((k : TopologyPair)
        → view t.tp_pair_to_match_num r.1 k ≡ view sample.tp_pair_to_match_num heap k)
    × ((k : TopologyPair)
        → view sample.tp_pair_to_match_num r.1 k ≡ view sample.tp_pair_to_match_num heap k)
    × ((j k : TopologyPair) (a : Address)
        → lookup j sample.tp_pair_to_match_num ≡ some a
        → lookup k t.tp_pair_to_match_num ≢ some a)
clone-IsValid_example = clone-IsValid sample heap sample-IsValid

update_with_pod-view_example :
    Returns (update_with_pod (some sample) new_pod new_pod (some node_b) (pos 1) heap) λ h'.
      IsValid sample.tp_pair_to_match_num h'
      × ((q : TopologyPair)
          → view sample.tp_pair_to_match_num h' q ≡ (
              if pair_of sample "b" == q
              then some (add32 (pos 0) (pos 1))
              else view sample.tp_pair_to_match_num heap q))
update_with_pod-view_example =
    update_with_pod-view sample new_pod new_pod node_b "b" (pos 1) heap sample-IsCounted
      sample-IsValid (pos 0) (unfold view lookup in refl)

abbrev no_counters : PreFilterState
no_counters = record sample { tp_pair_to_match_num = [] }

no_counters-IsValid : IsValid no_counters.tp_pair_to_match_num heap
unfolding IsMap lookup
no_counters-IsValid = record {
  distinct = tt;
  bounded = λ k a found. cc found;
  unshared = λ j k a p q. cc p;
  int32s = sample-IsValid.int32s;
}

update_with_pod-panics_iff_example :
    (update_with_pod (some no_counters) new_pod new_pod (some node_b) (pos 1) heap ≡ panics) ↔ (
      (node : Node) × (v : String) × (some node_b ≡ some node)
      × IsCounted no_counters new_pod new_pod node v
      × (lookup (pair_of no_counters v) no_counters.tp_pair_to_match_num ≡ none))
update_with_pod-panics_iff_example =
    update_with_pod-panics_iff no_counters new_pod new_pod (pos 1) heap (some node_b)
      no_counters-IsValid

-- The node's zone has no counter, and the call panics.
update_panics :
    update_with_pod (some no_counters) new_pod new_pod (some node_b) (pos 1) heap ≡ panics
unfolding update_with_pod add_cell lookup
update_panics = refl

abbrev stored : String → Result StateData
stored _ = ok (pre_filter (some sample))

sample_int32s : (r : ℤ) → lookup "b" sample.constraint.schedule_policy ≡ some r → IsInt32 r
unfolding lookup
sample_int32s r found = ground arith

reserve-filter_example :
    Returns (reserve cycle (plugin_of all_nodes) stored new_pod "node-b" heap) λ r.
      (r.0 ≡ succeeded)
      × ((replicas : ℤ) × (lookup "b" sample.constraint.schedule_policy ≡ some replicas)
          × ((pos 0 +ℤ pos 1) ≤ℤ replicas))
      × ((q : TopologyPair)
          → view sample.tp_pair_to_match_num r.1 q ≡ (
              if pair_of sample "b" == q
              then some (pos 0 +ℤ pos 1)
              else view sample.tp_pair_to_match_num heap q))
reserve-filter_example =
    reserve-filter cycle (plugin_of all_nodes) stored new_pod sample policy_zone "node-b" info_b
      node_b "b" heap (pos 0) (unfold pod_require_topology_scheduling lookup in refl)
      (unfold get_pre_filter_state in refl) refl refl refl (unfold lookup in refl)
      (unfold lookup in refl) (unfold IsMap lookup in (refl, (refl, tt))) sample_int32s
      sample-IsValid (unfold view lookup in refl)
      (unfold filter_node check_policy_requirement_reached check_topo_value_reached view lookup in
        refl)
      (unfold check_policy_requirement_reached view lookup in refl)

abbrev heap_after : Heap
heap_after = pos 2 ∷ pos 1 ∷ []

unreserve-reserve_example :
    unreserve cycle (plugin_of all_nodes) stored new_pod "node-b" heap_after ≡ returns heap
unreserve-reserve_example =
    unreserve-reserve cycle (plugin_of all_nodes) stored new_pod "node-b" heap heap_after succeeded
      (omega arith)
      (unfold reserve pod_require_topology_scheduling get_pre_filter_state update_with_pod add_cell
          add32 lookup in
        refl)

remove-add_example :
    remove_pod cycle stored new_pod (pod_on "p" "node-b" PodPhase.running) info_b heap_after
    ≡ returns (succeeded, heap)
remove-add_example =
    remove-add cycle stored new_pod (pod_on "p" "node-b" PodPhase.running) info_b heap heap_after
      succeeded (omega arith)
      (unfold add_pod pod_require_topology_scheduling get_pre_filter_state update_with_pod add_cell
          add32 lookup in
        refl)

check_policy_requirement_reached_iff_example :
    (check_policy_requirement_reached "zone" sample.constraint.schedule_policy
        sample.tp_pair_to_match_num heap
      ≡ true)
    ↔ ((value : String) (replicas : ℤ)
        → lookup value sample.constraint.schedule_policy ≡ some replicas
        → IsReached "zone" sample.tp_pair_to_match_num heap value replicas)
check_policy_requirement_reached_iff_example =
    check_policy_requirement_reached_iff "zone" sample.tp_pair_to_match_num heap
      sample.constraint.schedule_policy (unfold IsMap lookup in (refl, (refl, tt)))
