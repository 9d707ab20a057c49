-- ===== src/Topology/PreFilter/Totals.antt =====
-- The total of a pair over the nodes of a snapshot, node by node.
use super_scheduling.Prelude.{
  ℕ, ◌+◌, ◌≡◌, refl, sym, ◌∙◌, ap, ap₂, subst, ◌⊎◌, some, List, [], ◌∷◌, String, ◌==◌, ==_iff,
  string_eq, arith, Option-cases, Bool-cases, inl, inr, sum_of,
}
use super_scheduling.Api.Kubernetes.{Node, NodeInfo, Selector, label_value}
use super_scheduling.Api.Labels.{IsLabelled, label_value_iff}
use super_scheduling.Api.Scheduling.{TopologyPair, topology_pair_eq}
use super_scheduling.Topology.PreFilter.{count_pods_match_selector}
use super_scheduling.Topology.PreFilter.Matching.{Matching, count_pods-Matching}
use super_scheduling.Topology.PreFilter.Counts.{node_total, total}

module _ (key : String) (selector : Selector) (ns : String) (pair : TopologyPair) where
  -- The node is there, and the pair is the key with the node's value for it.
  pub record HasPair (n : NodeInfo) : Type 0 where
    pub node : Node
    pub there : n.node ≡ some node
    pub same_key : pair.key ≡ key
    pub valued : IsLabelled key node.labels pair.value

  -- The sum of the numbers of matching entries of the nodes with the pair.
  pub data Totals : List NodeInfo → ℕ → Type 0 where
    no_nodes : Totals [] 0
    with_pair :
        (n : NodeInfo) (nodes : List NodeInfo) (k t : ℕ)
        → HasPair n
        → Matching selector ns n.pods k
        → Totals nodes t
        → Totals (n ∷ nodes) (k + t)
    without_pair :
        (n : NodeInfo) (nodes : List NodeInfo) (t : ℕ)
        → ¬ HasPair n
        → Totals nodes t
        → Totals (n ∷ nodes) t

  node_total_cases :
      (n : NodeInfo)
      → (HasPair n
          × (node_total key selector ns pair n ≡ count_pods_match_selector n.pods selector ns))
        ⊎ ((¬ HasPair n) × (node_total key selector ns pair n ≡ 0))
  unfolding node_total
  node_total_cases n = elim (Option-cases n.node) [
    | inl missing ↦ inr (λ has. cc (missing, has.there), rw (missing, node_total) refl)
    | inr (node, there) ↦
        let own : TopologyPair = record { key = key; value = label_value key node.labels } in
        elim (Bool-cases (own == pair)) [
          | inl same ↦
              let e : own ≡ pair = (==_iff own pair).0 same in
              inl (
                record {
                  node = node;
                  there = there;
                  same_key = sym (ap (λ (p : TopologyPair). p.key) e);
                  valued =
                      (label_value_iff key node.labels pair.value).0
                        (ap (λ (p : TopologyPair). p.value) e);
                },
                rw (there, node_total) (rw same refl),
              )
          | inr other ↦ inr (
            λ has.
                let at_node : has.node ≡ node = cc (there, has.there) in
                let value : label_value key node.labels ≡ pair.value =
                  ap (λ (x : Node). label_value key x.labels) (sym at_node)
                  ∙ (label_value_iff key has.node.labels pair.value).1 has.valued in
                let e : own ≡ pair =
                  ap₂ (λ k v. record { key = k; value = v }) (sym has.same_key) value in
                cc (other, (==_iff own pair).1 e),
            rw (there, node_total) (rw other refl),
          )
        ]
  ]

  -- The total that the counts are compared with is that sum.
  pub total-Totals : (nodes : List NodeInfo) → Totals nodes (total key selector ns pair nodes)
  unfolding total sum_of
  total-Totals [] = no_nodes
  total-Totals (n ∷ nodes) =
      let rest = total-Totals nodes in
      elim (node_total_cases n) [
        | inl (has, own) ↦
            subst (Totals (n ∷ nodes)) (omega (arith, own))
              (with_pair n nodes _ _ has (count_pods-Matching selector ns n.pods) rest)
        | inr (lacks, zero) ↦
            subst (Totals (n ∷ nodes)) (omega (arith, zero)) (without_pair n nodes _ lacks rest)
      ]
