-- ===== src/Topology/Plugin/Cycle.antt =====
-- Reserve, Unreserve, AddPod and RemovePod within one scheduling cycle.
use super_scheduling.Prelude.{
  ◌≡◌, refl, sym, ◌∙◌, ap, true, false, some, String, lookup, ℤ, pos, add32, add32_of_IsInt32, ◌+ℤ◌,
  ◌≤ℤ◌, lt_of_not_le, IsInt32-add_one, add_one-le, ◌<ℤ◌, IsInt32, All, IsMap, Run, returns, panics,
  ◌>>=◌, Returns, Result-cases, ok, string_eq, ◌==◌, if◌then◌else◌, arith, Bool-cases, inl, inr,
}
use super_scheduling.Api.Kubernetes.{Pod, Node, NodeInfo}
use super_scheduling.Api.Scheduling.{TopologyPair, topology_pair_eq, TopologySchedulingPolicy}
use super_scheduling.Api.Framework.{CycleState, Status, nil}
use super_scheduling.Topology.Counters.{Heap, view, IsValid}
use super_scheduling.Topology.State.{PreFilterState, update_with_pod}
use super_scheduling.Topology.State.Update.{pair_of, update_with_pod-view, update_with_pod_undo}
use super_scheduling.Topology.PreFilter.Counts.{view-IsInt32}
use super_scheduling.Topology.PreFilter.{TopologyScheduling}
use super_scheduling.Topology.Checks.{
  pod_require_topology_scheduling, check_policy_requirement_reached,
}
use super_scheduling.Topology.Nodes.{succeeded, node_of, filter_node}
use super_scheduling.Topology.Nodes.Admission.{filter_node-room}
use super_scheduling.Topology.Plugin.{
  StateData, get_pre_filter_state, add_pod, remove_pod, reserve, unreserve,
}

with_status_inv :
    (r : Run Heap) (status : Status) (h' : Heap)
    → ◌>>=◌ {T = Status × Heap} r (λ h₁. returns (succeeded, h₁)) ≡ returns (status, h')
    → r ≡ returns h'
with_status_inv (returns h₁) status h' e = cc
with_status_inv panics status h' e = cc

module _ (cs : CycleState StateData) where
  -- AddPod and then RemovePod of the same pod and node restore every counter, whatever the state,
  -- the pods and the node.
  pub remove-add :
      (st : cs.State) (pod_to_schedule pod : Pod) (n : NodeInfo) (h h' : Heap) (status : Status)
      → All IsInt32 h
      → add_pod cs st pod_to_schedule pod n h ≡ returns (status, h')
      → remove_pod cs st pod_to_schedule pod n h' ≡ returns (status, h)
  unfolding add_pod remove_pod
  remove-add st pod_to_schedule pod n h h' status fits run =
      elim (Bool-cases (pod_require_topology_scheduling pod_to_schedule)) [
        | inr without ↦ ground arith
        | inl required ↦ elim (Result-cases (get_pre_filter_state cs st)) [
          | inl (e, q) ↦ ground arith
          | inr (s, q) ↦ ground (arith, update_with_pod_undo s pod pod_to_schedule n.node h h' fits)
        ]
      ]

  module _ {LabelSelector : Type 0} (ts : TopologyScheduling LabelSelector) (st : cs.State)
      (pod : Pod) where
    -- Unreserve after Reserve on the same node restores every counter, whether Reserve succeeded or
    -- returned an error.
    pub unreserve-reserve :
        (node_name : String) (h h' : Heap) (status : Status)
        → All IsInt32 h
        → reserve cs ts st pod node_name h ≡ returns (status, h')
        → unreserve cs ts st pod node_name h' ≡ returns h
    unfolding reserve unreserve
    unreserve-reserve node_name h h' status fits run =
        elim (Bool-cases (pod_require_topology_scheduling pod)) [
          | inr without ↦ ground arith
          | inl required ↦ elim (Result-cases (get_pre_filter_state cs st)) [
            | inl (e, q) ↦ ground arith
            | inr (s, q) ↦ elim (Result-cases (ts.framework_handle.get node_name)) [
              | inl (e, g) ↦ ground arith
              | inr (n, g) ↦ ground (arith, update_with_pod_undo s pod pod (node_of n) h h' fits)
            ]
          ]
        ]

    reserve-run :
        (s : PreFilterState) (n : NodeInfo) (node_name : String) (h h' : Heap)
        → pod_require_topology_scheduling pod ≡ true
        → get_pre_filter_state cs st ≡ ok (some s)
        → ts.framework_handle.get node_name ≡ ok (some n)
        → update_with_pod (some s) pod pod n.node (pos 1) h ≡ returns h'
        → reserve cs ts st pod node_name h ≡ returns (succeeded, h')
    unfolding reserve
    reserve-run s n node_name h h' required stored got run = ground arith

    -- With a stored state that has valid counters, the policy's key and replicas within `int32`, a
    -- matching pod with the policy label that Filter lets onto a labelled node of the snapshot whose
    -- value has a counter, while some value lacks replicas, and for which Reserve is then called:
    -- Reserve succeeds, the count of the node's value goes up by one and stays within the value's
    -- replicas, and no other count changes.
    pub reserve-filter :
        (s : PreFilterState) (tsp : TopologySchedulingPolicy LabelSelector) (node_name : String)
        (n : NodeInfo) (node : Node) (v : String) (h : Heap) (c : ℤ)
        → pod_require_topology_scheduling pod ≡ true
        → get_pre_filter_state cs st ≡ ok (some s)
        → ts.framework_handle.get node_name ≡ ok (some n)
        → n.node ≡ some node
        → s.constraint.topology_key ≡ tsp.spec.topology_key
        → lookup tsp.spec.topology_key node.labels ≡ some v
        → s.constraint.selector.matches pod.labels ≡ true
        → IsMap s.constraint.schedule_policy
        → ((r : ℤ) → lookup v s.constraint.schedule_policy ≡ some r → IsInt32 r)
        → IsValid s.tp_pair_to_match_num h
        → view s.tp_pair_to_match_num h (pair_of s v) ≡ some c
        → filter_node s tsp pod node h ≡ nil
        → check_policy_requirement_reached tsp.spec.topology_key s.constraint.schedule_policy
            s.tp_pair_to_match_num h
          ≡ false
        → Returns (reserve cs ts st pod node_name h) λ r.
          (r.0 ≡ succeeded)
          × ((replicas : ℤ) × (lookup v s.constraint.schedule_policy ≡ some replicas)
              × ((c +ℤ pos 1) ≤ℤ replicas))
          × ((q : TopologyPair)
              → view s.tp_pair_to_match_num r.1 q
                ≡ (if pair_of s v == q then some (c +ℤ pos 1) else view s.tp_pair_to_match_num h q))
    unfolding reserve
    reserve-filter s tsp node_name n node v h c required stored got there same labelled matches
          distinct int32s valid seen let_in unmet =
        let (r, placed, short) =
          filter_node-room s tsp pod node h v matches labelled distinct let_in unmet in
        let at_pair : pair_of s v ≡ record { key = tsp.spec.topology_key; value = v } =
          ap (λ k. record { key = k; value = v }) same in
        let below : c <ℤ r =
          lt_of_not_le c r (λ (q : r ≤ℤ c).
            short (c, ap (view s.tp_pair_to_match_num h) (sym at_pair) ∙ seen, q)) in
        let exact : add32 c (pos 1) ≡ c +ℤ pos 1 = add32_of_IsInt32 c (pos 1) (
          IsInt32-add_one c r below
            (view-IsInt32 s.tp_pair_to_match_num h (pair_of s v) c valid seen) (int32s r placed)) in
        let (h', run, (_, views)) =
          update_with_pod-view s pod pod node v (pos 1) h
            (record {
              namespace = refl;
              labelled = ap (λ k. lookup k node.labels) same ∙ labelled;
              matches = matches;
            })
            valid c seen in
        (
          (succeeded, h'),
          reserve-run s n node_name h h' required stored got
              (ap (λ o. update_with_pod (some s) pod pod o (pos 1) h) there ∙ run),
          (refl, (r, placed, add_one-le c r below), λ q. views q ∙ rw exact),
        )
