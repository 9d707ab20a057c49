-- ===== src/Topology/Checks.antt =====
-- The tests of Filter: `checkPolicyRequirementReached`, `checkTopoValueReached` and
-- `podRequireTopologyScheduling` of pkg/topologyscheduling/topology_scheduling.go.
use super_scheduling.Prelude.{
  ◌≡◌, ◌↔◌, refl, sym, ◌∙◌, Bool, true, false, Option, none, some, [], ◌∷◌, String, Map, lookup,
  lookup-nil, lookup-cons, IsMap, ℤ, ltb_ℤ, ◌≤ℤ◌, ◌==◌, ==_iff, ==_refl, string_eq, if◌then◌else◌,
  arith, Option-cases, Bool-cases, inl, inr,
}
use super_scheduling.Api.Kubernetes.{Pod}
use super_scheduling.Api.Scheduling.{TopologyPair, topology_pair_eq}
use super_scheduling.Util.{topology_scheduling_label_key}
use super_scheduling.Topology.Counters.{Address, Heap, view}

unfoldable pub pod_require_topology_scheduling : Pod → Bool
pod_require_topology_scheduling pod = elim (lookup topology_scheduling_label_key pod.labels) [
  | none ↦ false
  | some _ ↦ true
]

-- The count of a pair is below the number of replicas, or there is no count.
unfoldable pub below : Option ℤ → ℤ → Bool
below none replicas = true
below (some count) replicas = ltb_ℤ count replicas

-- The loop ranges over the map of the policy, in an order that Go leaves open.
unfoldable pub check_policy_requirement_reached :
    String → Map String ℤ → Map TopologyPair Address → Heap → Bool
unfolding below
check_policy_requirement_reached topo_key [] counts h = true
check_policy_requirement_reached topo_key ((value, replicas) ∷ policy) counts h =
    if below (view counts h (record { key = topo_key; value = value })) replicas
    then false
    else check_policy_requirement_reached topo_key policy counts h

unfoldable pub check_topo_value_reached :
    String → String → Map String ℤ → Map TopologyPair Address → Heap → Bool
unfolding below
check_topo_value_reached topo_key topo_value policy counts h = elim (lookup topo_value policy) [
  | none ↦ true
  | some desired ↦
      if below (view counts h (record { key = topo_key; value = topo_value })) desired
      then false
      else true
]

-- The value has a count, and it is at least the number of replicas.
abbrev pub IsReached : String → Map TopologyPair Address → Heap → String → ℤ → Type 0
IsReached key counts h value replicas =
    (c : ℤ) × (view counts h (record { key = key; value = value }) ≡ some c) × (replicas ≤ℤ c)

IsReached-of_below :
    (key : String) (counts : Map TopologyPair Address) (h : Heap) (value : String) (replicas : ℤ)
    → below (view counts h (record { key = key; value = value })) replicas ≡ false
    → IsReached key counts h value replicas
unfolding below
IsReached-of_below key counts h value replicas e =
    elim (Option-cases (view counts h (record { key = key; value = value }))) [
      | inl missing ↦ absurd (cc (rw (missing, below) at e))
      | inr (c, seen) ↦ (c, seen, ground arith)
    ]

below-of_IsReached :
    (key : String) (counts : Map TopologyPair Address) (h : Heap) (value : String) (replicas : ℤ)
    → IsReached key counts h value replicas
    → below (view counts h (record { key = key; value = value })) replicas ≡ false
unfolding below
below-of_IsReached key counts h value replicas (c, seen, enough) = rw (seen, below) (ground arith)

module _ (key : String) (counts : Map TopologyPair Address) (h : Heap) where
  all_reached :
      (policy : Map String ℤ)
      → check_policy_requirement_reached key policy counts h ≡ true
      → (value : String) (replicas : ℤ) → lookup value policy ≡ some replicas
      → below (view counts h (record { key = key; value = value })) replicas ≡ false
  unfolding check_policy_requirement_reached
  all_reached [] e value replicas found = absurd (cc (lookup-nil {V = ℤ} value))
  all_reached ((v, r) ∷ policy) e value replicas found =
      let low = below (view counts h (record { key = key; value = v })) r in
      elim (Bool-cases low) [
        | inl under ↦ absurd (cc (rw under at e))
        | inr enough ↦ elim (Bool-cases (v == value)) [
          | inl same ↦
              let w : v ≡ value = (==_iff v value).0 same in
              let q : some r ≡ some replicas =
                sym (lookup-cons value v r policy ∙ rw same) ∙ found in
              cc (w, q)
          | inr other ↦
              all_reached policy (rw enough at e) value replicas
                (sym (lookup-cons value v r policy ∙ rw other) ∙ found)
        ]
      ]

  reached_of_all :
      (policy : Map String ℤ)
      → IsMap policy
      → ((value : String) (replicas : ℤ)
          → lookup value policy ≡ some replicas
          → below (view counts h (record { key = key; value = value })) replicas ≡ false)
      → check_policy_requirement_reached key policy counts h ≡ true
  unfolding check_policy_requirement_reached IsMap
  reached_of_all [] distinct all = refl
  reached_of_all ((v, r) ∷ policy) distinct all = rw (all v r (rw (lookup-cons, ==_refl v))) (
      reached_of_all policy distinct.1 λ value replicas found.
        all value replicas
          (ground (arith, lookup-cons value v r policy, ==_iff v value, distinct.0)))

  -- The first test holds exactly when every value that the policy places has reached its replicas;
  -- so the order in which the map is visited does not matter.
  pub check_policy_requirement_reached_iff :
      (policy : Map String ℤ)
      → IsMap policy
      → (check_policy_requirement_reached key policy counts h ≡ true) ↔ (
          (value : String) (replicas : ℤ)
          → lookup value policy ≡ some replicas
          → IsReached key counts h value replicas)
  check_policy_requirement_reached_iff policy distinct = (
    λ e value replicas found.
        IsReached-of_below key counts h value replicas (all_reached policy e value replicas found),
    λ all. reached_of_all policy distinct λ value replicas found.
        below-of_IsReached key counts h value replicas (all value replicas found),
  )

  not-IsReached :
      (policy : Map String ℤ) (value : String)
      → check_topo_value_reached key value policy counts h ≡ false
      → (replicas : ℤ) × (lookup value policy ≡ some replicas)
        × ¬ IsReached key counts h value replicas
  unfolding check_topo_value_reached
  not-IsReached policy value e = elim (Option-cases (lookup value policy)) [
    | inl missing ↦ absurd (cc (rw (missing, check_topo_value_reached) at e))
    | inr (r, found) ↦ (
      r,
      found,
      λ reached. cc (
          rw (found, check_topo_value_reached, below-of_IsReached key counts h value r reached) at
            e),
    )
  ]

  -- The second test fails exactly when the policy places the value and it has not reached its
  -- replicas.
  pub check_topo_value_reached_iff :
      (policy : Map String ℤ) (value : String)
      → (check_topo_value_reached key value policy counts h ≡ false) ↔ (
          (replicas : ℤ) × (lookup value policy ≡ some replicas)
          × ¬ IsReached key counts h value replicas)
  unfolding check_topo_value_reached
  check_topo_value_reached_iff policy value = (
    not-IsReached policy value,
    λ (replicas, found, short).
        elim (Bool-cases (below (view counts h (record { key = key; value = value })) replicas)) [
          | inl under ↦ rw (found, check_topo_value_reached) (rw under)
          | inr enough ↦ absurd (short (IsReached-of_below key counts h value replicas enough))
        ],
  )
