-- ===== src/Tests/Rollout.antt =====
-- The theorems about the cycles of a policy's pods: one cycle binds a pod to zone b, the one value
-- of Samples that lacks a replica.
use mathlib.Core.List.Perm
use super_scheduling.Prelude.{
  ◌+◌, ◌≤◌, ◌^◌, ◌≡◌, refl, true, some, List, [], ◌∷◌, String, lookup, insert, ℤ, pos, int32, add32,
  sum_of, any_of, all_of, string_eq, ◌==◌, arith, Bool-cases, inl, inr,
}
use super_scheduling.Api.Kubernetes.{NodeInfo, label_value}
use super_scheduling.Api.Scheduling.{topology_pair_eq}
use super_scheduling.Util.{covert_policy}
use super_scheduling.Topology.Counters.{add_cell, view}
use super_scheduling.Topology.PreFilter.{
  calculate_pre_filter_state_cache, count_pods_match_selector,
}
use super_scheduling.Topology.PreFilter.Counts.{total, node_total, is_present, fits_pair}
use super_scheduling.Topology.Checks.{
  pod_require_topology_scheduling, check_policy_requirement_reached, check_topo_value_reached,
}
use super_scheduling.Topology.Plugin.{pre_filter_method, filter, get_pre_filter_state}
use super_scheduling.Topology.Rollout.{
  bind, pod_count, IsPlacement, have, Ready, Cycle, Cycles, idle, next,
}
use super_scheduling.Topology.Rollout.Shortfall.{shortfall}
use super_scheduling.Topology.Rollout.Step.{gap}
use super_scheduling.Topology.Rollout.Progress.{cycles-reach, cycles-within, next-Cycle}
use super_scheduling.Tests.Samples.{
  new_pod, node_b, info_a, info_b, all_nodes, by_app, functions, policy_zone, plugin_of, cycle,
  empty_state, write_data,
}
use super_scheduling.Tests.Topology.{same_order, sample-Reads}

placement : IsPlacement (covert_policy policy_zone.spec.deploy_placement)
unfolding covert_policy lookup insert
placement value replicas found = elim (Bool-cases ("a" == value)) [
  | inl is_a ↦ (2, ground (arith, found), omega arith)
  | inr not_a ↦ elim (Bool-cases ("b" == value)) [
    | inl is_b ↦ (1, ground (arith, found), omega arith)
    | inr not_b ↦ absurd (ground (arith, found))
  ]
]

zones_fit :
    (value : String) (replicas : ℤ)
    → lookup value (covert_policy policy_zone.spec.deploy_placement) ≡ some replicas
    → any_of (fits_pair functions "zone" new_pod (record { key = "zone"; value = value })) all_nodes
      ≡ true
unfolding covert_policy lookup insert any_of fits_pair
zones_fit value replicas found = elim (Bool-cases ("a" == value)) [
  | inl is_a ↦ rw (is_a, any_of) refl
  | inr not_a ↦ elim (Bool-cases ("b" == value)) [
    | inl is_b ↦ rw (not_a, any_of) (rw is_b refl)
    | inr not_b ↦ absurd (ground (arith, found))
  ]
]

abbrev new_pod_ready : Ready functions same_order cycle policy_zone by_app "default" all_nodes
new_pod_ready = record {
  plugin = plugin_of all_nodes;
  state = empty_state;
  heap = [];
  pod = new_pod;
  reads = sample-Reads all_nodes;
  order = Perm.refl all_nodes;
  present = unfold all_of is_present in refl;
  cells = tt;
  matches = unfold lookup in refl;
  namespace = refl;
  alive = refl;
  fitting = zones_fit;
}

abbrev bound_nodes : List NodeInfo
bound_nodes = info_a ∷ bind new_pod node_b info_b ∷ []

first_cycle : Cycle functions same_order cycle policy_zone by_app "default" all_nodes bound_nodes
unfolding covert_policy lookup insert pre_filter_method calculate_pre_filter_state_cache
    pod_require_topology_scheduling add_cell count_pods_match_selector label_value int32 add32
    filter get_pre_filter_state check_policy_requirement_reached check_topo_value_reached view
    write_data
first_cycle = record {
  ready = new_pod_ready;
  before = info_a ∷ [];
  chosen = info_b;
  after = [];
  node = node_b;
  value = "b";
  split = refl;
  there = refl;
  labelled = refl;
  filtered = _;
  counted = _;
  pre_filter = refl;
  admitted = refl;
  bound = refl;
}

-- One pod is missing in zone b.
gap_run : gap functions same_order cycle policy_zone by_app "default" placement all_nodes ≡ 1
unfolding shortfall total node_total count_pods_match_selector covert_policy lookup insert sum_of
    label_value
gap_run = refl

pods_small : pod_count all_nodes + 1 ≤ 2 ^ 31
unfolding pod_count sum_of
pods_small = omega arith

one_cycle : Cycles functions same_order cycle policy_zone by_app "default" 1 all_nodes bound_nodes
one_cycle = next 0 all_nodes all_nodes bound_nodes (idle all_nodes) first_cycle

cycles-reach_example :
    1 ≤ have functions same_order cycle policy_zone by_app "default" bound_nodes "b"
cycles-reach_example =
    cycles-reach functions same_order cycle policy_zone by_app "default" placement 1 all_nodes
      bound_nodes one_cycle pods_small (omega (arith, gap_run)) "b" (pos 1)
      (unfold covert_policy lookup insert in refl)

have_b : have functions same_order cycle policy_zone by_app "default" all_nodes "b" ≡ 0
unfolding total node_total count_pods_match_selector lookup sum_of label_value
have_b = refl

cycles-within_example :
    have functions same_order cycle policy_zone by_app "default" bound_nodes "b" ≤ 1
cycles-within_example =
    cycles-within functions same_order cycle policy_zone by_app "default" placement 1 all_nodes
      bound_nodes one_cycle pods_small (omega (arith, gap_run)) "b" (pos 1)
      (unfold covert_policy lookup insert in refl) (omega (arith, have_b))

next-Cycle_example :
    (nodes' : List NodeInfo) × Cycle functions same_order cycle policy_zone by_app "default"
      all_nodes nodes'
next-Cycle_example =
    next-Cycle functions same_order cycle policy_zone by_app "default" placement all_nodes
      new_pod_ready (omega (arith, pods_small)) (λ q. omega (arith, q, gap_run))
