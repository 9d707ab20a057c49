-- ===== src/Topology/Rollout/Placing.antt =====
-- What binding a pod to a node adds to the counts.
use super_scheduling.Prelude.{
  ℕ, ◌+◌, ◌≤◌, ◌≡◌, refl, true, none, some, Option, List, [], ◌∷◌, ◌++◌, String, lookup, length,
  length-append, sum_of, ◌==◌, ==_iff, string_eq, if◌then◌else◌, arith, inl, inr, Option-cases,
  eq_iff,
}
use super_scheduling.Api.Kubernetes.{Pod, Node, NodeInfo, Selector, label_value}
use super_scheduling.Api.Scheduling.{TopologyPair, topology_pair_eq}
use super_scheduling.Topology.PreFilter.{
  is_some, count_pod, count_pod_infos, count_pods_match_selector,
}
use super_scheduling.Topology.PreFilter.Counts.{total, node_total}
use super_scheduling.Topology.Rollout.{bind, pod_count}

sum_of-append {ℓ} :
    {A : Type ℓ} (f : A → ℕ) (xs ys : List A) → sum_of f (xs ++ ys) ≡ sum_of f xs + sum_of f ys
unfolding sum_of
sum_of-append f [] ys = omega arith
sum_of-append f (x ∷ xs) ys = omega (arith, sum_of-append f xs ys)

count_pod_infos-append :
    (pods : List (Option Pod)) (p : Option Pod) (selector : Selector) (ns : String) (count : ℕ)
    → count_pod_infos (pods ++ p ∷ []) selector ns count
      ≡ count_pod_infos pods selector ns count + count_pod p selector ns
unfolding count_pod_infos
count_pod_infos-append [] p selector ns count = refl
count_pod_infos-append (q ∷ pods) p selector ns count =
    count_pod_infos-append pods p selector ns (count + count_pod q selector ns)

count_pod-le : (p : Option Pod) (selector : Selector) (ns : String) → count_pod p selector ns ≤ 1
unfolding count_pod
count_pod-le none selector ns = omega arith
count_pod-le (some pod) selector ns = ground arith

count_pod_infos-le :
    (pods : List (Option Pod)) (selector : Selector) (ns : String) (count : ℕ)
    → count_pod_infos pods selector ns count ≤ count + length pods
unfolding count_pod_infos
count_pod_infos-le [] selector ns count = omega arith
count_pod_infos-le (p ∷ pods) selector ns count = omega (
  arith,
  count_pod-le p selector ns,
  count_pod_infos-le pods selector ns (count + count_pod p selector ns),
)

module _ (key : String) (selector : Selector) (ns : String) where
  -- The matching pods of a node with the value `v`.
  node_total-at :
      (node : Node) (v : String)
      → lookup key node.labels ≡ some v
      → (n : NodeInfo) → n.node ≡ some node
      → (value : String)
      → node_total key selector ns (record { key = key; value = value }) n
        ≡ (if v == value then count_pods_match_selector n.pods selector ns else 0)
  unfolding node_total label_value
  node_total-at node v labelled n there value =
      rw (there, node_total)
        (rw (labelled, label_value) (ground (arith, ==_iff v value, eq_iff key key)))

  node_total-le :
      (pair : TopologyPair) (n : NodeInfo) → node_total key selector ns pair n ≤ length n.pods
  unfolding node_total count_pods_match_selector
  node_total-le pair n = elim (Option-cases n.node) [
    | inl missing ↦ rw (missing, node_total) (omega arith)
    | inr (node, there) ↦
        rw (there, node_total) (ground (arith, count_pod_infos-le n.pods selector ns 0))
  ]

  -- No count is above the number of all pods on the nodes.
  pub total-le :
      (pair : TopologyPair) (nodes : List NodeInfo)
      → total key selector ns pair nodes ≤ pod_count nodes
  unfolding total pod_count sum_of
  total-le pair [] = omega arith
  total-le pair (n ∷ nodes) = omega (arith, node_total-le pair n, total-le pair nodes)

  module _ (pod : Pod) (node : Node) (n : NodeInfo) (v : String) (there : n.node ≡ some node)
      (labelled : lookup key node.labels ≡ some v) (matches : selector.matches pod.labels ≡ true)
      (namespace : pod.namespace ≡ ns) (alive : pod.deletion_timestamp ≡ none) where
    counts_one : count_pod (some (record pod { node_name = node.name })) selector ns ≡ 1
    unfolding count_pod is_some
    counts_one = ground (arith, matches, namespace, alive, ==_iff pod.namespace ns)

    node_total-bind :
        (value : String)
        → node_total key selector ns (record { key = key; value = value }) (bind pod node n)
          ≡ node_total key selector ns (record { key = key; value = value }) n
            + (if v == value then 1 else 0)
    unfolding count_pods_match_selector
    node_total-bind value =
        let old = node_total-at node v labelled n there value in
        let new = node_total-at node v labelled (bind pod node n) there value in
        let one =
          count_pod_infos-append n.pods (some (record pod { node_name = node.name })) selector ns
            0 in
        ground (arith, old, new, one, counts_one)

    -- The value of the node has one pod more, and no other value has.
    pub total-bind :
        (before after : List NodeInfo) (value : String)
        → total key selector ns
            (record { key = key; value = value })
            (before ++ bind pod node n ∷ after)
          ≡ total key selector ns (record { key = key; value = value }) (before ++ n ∷ after)
            + (if v == value then 1 else 0)
    unfolding total sum_of
    total-bind [] after value = omega (arith, node_total-bind value)
    total-bind (m ∷ before) after value = omega (arith, total-bind before after value)

pub pod_count-bind :
    (pod : Pod) (node : Node) (n : NodeInfo) (before after : List NodeInfo)
    → pod_count (before ++ bind pod node n ∷ after) ≡ pod_count (before ++ n ∷ after) + 1
unfolding pod_count sum_of
pod_count-bind pod node n [] after =
    omega (arith, length-append n.pods (some (record pod { node_name = node.name }) ∷ []))
pod_count-bind pod node n (m ∷ before) after = omega (arith, pod_count-bind pod node n before after)
