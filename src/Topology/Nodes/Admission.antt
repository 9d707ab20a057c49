-- ===== src/Topology/Nodes/Admission.antt =====
-- When Filter lets a pod onto a node, in terms of the counts alone.
use super_scheduling.Prelude.{
  ◌≡◌, ◌≢◌, sym, ◌∙◌, ◌↔◌, ◌⊎◌, inl, inr, Bool, true, false, not, Option, some, [], ◌∷◌, String,
  Map, lookup, IsMap, ℤ, ◌≤ℤ◌, string_eq, if◌then◌else◌, Bool-cases,
}
use super_scheduling.Api.Kubernetes.{Pod, Node}
use super_scheduling.Api.Scheduling.{topology_pair_eq, TopologySchedulingPolicy}
use super_scheduling.Api.Framework.{nil, new_status, unschedulable}
use super_scheduling.Topology.Counters.{Heap, view}
use super_scheduling.Topology.State.{PreFilterState}
use super_scheduling.Topology.Checks.{
  check_policy_requirement_reached, check_topo_value_reached, check_policy_requirement_reached_iff,
  check_topo_value_reached_iff,
}
use super_scheduling.Topology.Nodes.{filter_node, err_reason_constraints_not_match}

-- The value has a count of at least `replicas`.
abbrev pub Has : (String → Option ℤ) → String → ℤ → Type 0
Has count value replicas = (c : ℤ) × (count value ≡ some c) × (replicas ≤ℤ c)

-- A node with the value `v` admits another pod: either every value that the policy places has its
-- replicas, or the policy places `v` and `v` does not have its replicas.
abbrev pub Admits : Map String ℤ → (String → Option ℤ) → String → Type 0
Admits policy count v =
    ((value : String) (replicas : ℤ)
      → lookup value policy ≡ some replicas
      → Has count value replicas)
    ⊎ ((replicas : ℤ) × (lookup v policy ≡ some replicas) × ¬ Has count v replicas)

module _ {LabelSelector : Type 0} (s : PreFilterState)
    (tsp : TopologySchedulingPolicy LabelSelector) (pod : Pod) (node : Node) (h : Heap)
    (v : String) where
  abbrev policy : Map String ℤ
  policy = s.constraint.schedule_policy

  abbrev counted : String → Option ℤ
  counted value =
      view s.tp_pair_to_match_num h (record { key = tsp.spec.topology_key; value = value })

  abbrev requirement : Bool
  requirement =
      check_policy_requirement_reached tsp.spec.topology_key policy s.tp_pair_to_match_num h

  abbrev value_reached : Bool
  value_reached = check_topo_value_reached tsp.spec.topology_key v policy s.tp_pair_to_match_num h

  module _ (matches : s.constraint.selector.matches pod.labels ≡ true)
      (labelled : lookup tsp.spec.topology_key node.labels ≡ some v) where
    filter_node-tests : filter_node s tsp pod node h ≡ (
        if requirement
        then nil
        else if not value_reached
        then nil
        else new_status unschedulable (err_reason_constraints_not_match ∷ []))
    unfolding filter_node
    filter_node-tests = rw (matches, filter_node) (rw labelled)

    refused_ne_nil : new_status unschedulable (err_reason_constraints_not_match ∷ []) ≢ nil
    refused_ne_nil e = cc

    -- A matching pod on a labelled node is let in exactly when the counts admit it.
    pub filter_node_iff :
        IsMap policy → (filter_node s tsp pod node h ≡ nil) ↔ Admits policy counted v
    filter_node_iff distinct =
        let all =
          check_policy_requirement_reached_iff tsp.spec.topology_key s.tp_pair_to_match_num h policy
            distinct in
        let short =
          check_topo_value_reached_iff tsp.spec.topology_key s.tp_pair_to_match_num h policy v in
        elim (Bool-cases requirement) [
          | inl met ↦ (λ _. inl (all.0 met), λ _. filter_node-tests ∙ rw met)
          | inr unmet ↦ elim (Bool-cases value_reached) [
            | inr room ↦ (λ _. inr (short.0 room), λ _. filter_node-tests ∙ rw (unmet, room))
            | inl full ↦ (
              λ e. absurd (refused_ne_nil (sym (filter_node-tests ∙ rw (unmet, full)) ∙ e)),
              elim [ inl reached ↦ absurd (cc (all.1 reached)) | inr r ↦ absurd (cc (short.1 r)) ],
            )
          ]
        ]

    -- A matching pod on a labelled node is let in or is refused as unschedulable.
    pub filter_node-refuses :
        (filter_node s tsp pod node h ≡ nil → ⊥)
        → filter_node s tsp pod node h
          ≡ new_status unschedulable (err_reason_constraints_not_match ∷ [])
    filter_node-refuses not_let_in = elim (Bool-cases requirement) [
      | inl met ↦ absurd (not_let_in (filter_node-tests ∙ rw met))
      | inr unmet ↦ elim (Bool-cases value_reached) [
        | inr room ↦ absurd (not_let_in (filter_node-tests ∙ rw (unmet, room)))
        | inl full ↦ filter_node-tests ∙ rw (unmet, full)
      ]
    ]

    -- A pod that is let in while some value lacks replicas finds its own value below its replicas.
    pub filter_node-room :
        IsMap policy
        → filter_node s tsp pod node h ≡ nil
        → requirement ≡ false
        → (replicas : ℤ) × (lookup v policy ≡ some replicas) × ¬ Has counted v replicas
    filter_node-room distinct let_in unmet = elim ((filter_node_iff distinct).0 let_in) [
      | inr room ↦ room
      | inl all ↦ absurd (
          cc (
            (check_policy_requirement_reached_iff tsp.spec.topology_key s.tp_pair_to_match_num h
                policy distinct).1
              all))
    ]
