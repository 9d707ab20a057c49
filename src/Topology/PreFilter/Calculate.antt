-- ===== src/Topology/PreFilter/Calculate.antt =====
-- `calculatePreFilterStateCache` as a whole: the counts that it returns, and the panic on a nil node.
use super_scheduling.Prelude.{
  ℕ, ◌≡◌, refl, ◌∙◌, Bool, true, false, Option, none, some, List, [], ◌∷◌, String, Map, lookup, ℤ,
  pos, int32, zero_add32, IsInt32, All, IsMap, lookup-nil, panics, Returns, ok, string_eq,
  if◌then◌else◌, arith, Option-cases, Bool-cases, inl, inr, any_of, all_of, sum_of-perm,
  all_of-perm, Perm,
}
use super_scheduling.Api.Kubernetes.{Pod, NodeInfo, Selector, Functions}
use super_scheduling.Api.Scheduling.{TopologyPair, topology_pair_eq, TopologySchedulingPolicy}
use super_scheduling.Util.{topology_scheduling_label_key, covert_policy}
use super_scheduling.Topology.Counters.{Address, Heap, view, IsValid, view_absent}
use super_scheduling.Topology.State.{PreFilterState}
use super_scheduling.Topology.PreFilter.{
  TopologyScheduling, init_pairs, process_node, process_nodes, count_nodes,
  calculate_pre_filter_state_cache,
}
use super_scheduling.Topology.PreFilter.Totals.{Totals, total-Totals}
use super_scheduling.Topology.PreFilter.Counts.{
  node_total, total, is_present, fits_pair, bump, init_pairs-view, process_node-view,
  process_nodes-view,
}

IsValid-nil : (h : Heap) → All IsInt32 h → IsValid {K = TopologyPair} [] h
unfolding IsMap
IsValid-nil h fits = record {
  distinct = tt;
  bounded = λ k a found. absurd (cc (lookup-nil {V = Address} k));
  unshared = λ j k a p q. absurd (cc (lookup-nil {V = Address} k));
  int32s = fits;
}

process_nodes-panics :
    (key : String) (selector : Selector) (ns : String) (m : Map TopologyPair Address)
    (nodes : List NodeInfo) (h : Heap)
    → all_of is_present nodes ≡ false
    → IsValid m h
    → process_nodes key selector ns m nodes h ≡ panics
unfolding process_nodes all_of is_present process_node
process_nodes-panics key selector ns m [] h absent valid = cc
process_nodes-panics key selector ns m (n ∷ nodes) h absent valid =
    elim (Bool-cases (is_present n)) [
      | inl here ↦
          let (h₁, run, (valid₁, _)) = process_node-view key selector ns m n h here valid in
          rw run (process_nodes-panics key selector ns m nodes h₁ (ground arith) valid₁)
      | inr gone ↦ elim (Option-cases n.node) [
        | inl missing ↦ rw (missing, process_node)
        | inr (node, there) ↦ absurd (ground arith)
      ]
    ]

counted :
    (b : Bool) {start old : Option ℤ} {t t' : ℕ}
    → start ≡ (if b then some (pos 0) else old)
    → old ≡ none
    → t ≡ t'
    → bump start t ≡ (if b then some (int32 (pos t')) else none)
unfolding bump
counted true {t' = t'} e absent same = ground (arith, zero_add32 (pos t'))
counted false e absent same = ground arith

module _ {LabelSelector : Type 0} (k8s : Functions LabelSelector)
    (parallelize : List NodeInfo → List NodeInfo) where
  -- The reads of the computation that succeed: the pod names a policy, the lister has it, the
  -- nodes are listed, and the label selector parses.
  pub record Reads (ts : TopologyScheduling LabelSelector) (pod : Pod)
      (tsp : TopologySchedulingPolicy LabelSelector) (nodes : List NodeInfo) (selector : Selector)
      : Type 0 where
    pub policy_name : String
    pub named : lookup topology_scheduling_label_key pod.labels ≡ some policy_name
    pub got : ts.topology_policy_lister.get pod.namespace policy_name ≡ ok tsp
    pub listed : ts.framework_handle.list ≡ ok nodes
    pub parsed : k8s.label_selector_as_selector tsp.spec.label_selector ≡ ok selector

  module _ (ts : TopologyScheduling LabelSelector) (pod : Pod)
      (tsp : TopologySchedulingPolicy LabelSelector) (nodes : List NodeInfo) (selector : Selector)
      (h : Heap) (reads : Reads ts pod tsp nodes selector) (order : Perm (parallelize nodes) nodes)
      (fits : All IsInt32 h) where
    calculate-count_nodes :
        calculate_pre_filter_state_cache k8s parallelize ts pod h
        ≡ count_nodes k8s parallelize tsp nodes selector pod h
    unfolding calculate_pre_filter_state_cache
    calculate-count_nodes =
        rw (reads.named, calculate_pre_filter_state_cache)
          (rw reads.got (rw reads.listed (rw reads.parsed)))

    -- The state has the policy's key, placements and strategy and the parsed selector, its counters
    -- are valid, and it has a count for exactly the pairs of the nodes that fit the pod: the total
    -- of the nodes with the pair, cut to `int32`, in whatever order the workers add their parts. The
    -- total is the number of entries of those nodes with a pod of the pod's namespace that is not
    -- terminating and matches the selector; a node has the pair of the key with its value for it,
    -- where a missing label reads as the empty text.
    pub calculate_counts :
        all_of is_present nodes ≡ true
        → Returns (calculate_pre_filter_state_cache k8s parallelize ts pod h) λ r.
          (s : PreFilterState) × (r.0 ≡ ok (some s))
          × (s.constraint ≡ record {
            topology_key = tsp.spec.topology_key;
            schedule_policy = covert_policy tsp.spec.deploy_placement;
            selector = selector;
          })
          × (s.schedule_strategy ≡ tsp.spec.schedule_strategy)
          × IsValid s.tp_pair_to_match_num r.1
          × ((pair : TopologyPair)
              → view s.tp_pair_to_match_num r.1 pair ≡ (
                  if any_of (fits_pair k8s tsp.spec.topology_key pod pair) nodes
                  then some
                      (int32 (pos (total tsp.spec.topology_key selector pod.namespace pair nodes)))
                  else none))
          × ((pair : TopologyPair)
              → Totals tsp.spec.topology_key selector pod.namespace pair nodes
                  (total tsp.spec.topology_key selector pod.namespace pair nodes))
    unfolding count_nodes total bump
    calculate_counts present =
        let key = tsp.spec.topology_key in
        let (m, h₁) = init_pairs k8s key pod nodes [] h in
        let (valid₁, initial) = init_pairs-view k8s key pod nodes [] h (IsValid-nil h fits) in
        let (h₂, run, (valid₂, views)) =
          process_nodes-view key selector pod.namespace m (parallelize nodes) h₁
            (all_of-perm is_present order ∙ present) valid₁ in
        (
          (_, h₂),
          calculate-count_nodes ∙ rw run,
          (
            _,
            refl,
            refl,
            refl,
            valid₂,
            λ pair.
                views pair
                ∙ counted (any_of (fits_pair k8s key pod pair) nodes) (initial pair)
                    (view_absent {K = TopologyPair} [] h pair (lookup-nil pair))
                    (sum_of-perm (node_total key selector pod.namespace pair) order),
            λ pair. total-Totals key selector pod.namespace pair nodes,
          ),
        )

    -- A nil node in the snapshot makes the call panic, whatever the order: the first loop passes
    -- the node over, and the counting of its pods dereferences it.
    pub calculate_nil_node :
        all_of is_present nodes ≡ false
        → calculate_pre_filter_state_cache k8s parallelize ts pod h ≡ panics
    unfolding count_nodes
    calculate_nil_node absent =
        let key = tsp.spec.topology_key in
        let (m, h₁) = init_pairs k8s key pod nodes [] h in
        calculate-count_nodes
        ∙ rw (
            process_nodes-panics key selector pod.namespace m (parallelize nodes) h₁
              (all_of-perm is_present order ∙ absent)
              (init_pairs-view k8s key pod nodes [] h (IsValid-nil h fits)).0)
