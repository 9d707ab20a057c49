-- ===== src/Topology/Plugin/Filtering.antt =====
-- Filter after PreFilter: the decision in terms of the pods on the nodes.
use super_scheduling.Prelude.{
  ◌≡◌, refl, sym, ◌∙◌, ap, ap₂, subst, fun_ext, ◌↔◌, true, Option, none, some, List, String, lookup,
  IsMap, ℤ, pos, int32, IsInt32, All, any_of, all_of, Perm, returns, Returns, ok, string_eq,
  if◌then◌else◌,
}
use super_scheduling.Api.Kubernetes.{Pod, Node, NodeInfo, Selector, Functions}
use super_scheduling.Api.Scheduling.{TopologyPair, topology_pair_eq, TopologySchedulingPolicy}
use super_scheduling.Api.Framework.{CycleState, Status, nil}
use super_scheduling.Util.{topology_scheduling_label_key, covert_policy}
use super_scheduling.Util.Policy.{covert_policy-IsMap}
use super_scheduling.Topology.Counters.{Heap, view}
use super_scheduling.Topology.State.{PreFilterState}
use super_scheduling.Topology.PreFilter.{TopologyScheduling, calculate_pre_filter_state_cache}
use super_scheduling.Topology.PreFilter.Counts.{total, is_present, fits_pair}
use super_scheduling.Topology.PreFilter.Calculate.{Reads, calculate_counts}
use super_scheduling.Topology.Checks.{pod_require_topology_scheduling}
use super_scheduling.Topology.Nodes.{filter_node, filter_state}
use super_scheduling.Topology.Nodes.Admission.{Admits, filter_node_iff}
use super_scheduling.Topology.Plugin.{
  StateData, pre_filter, pre_filter_state_key, get_pre_filter_state, pre_filter_method, filter,
}

required_of_named :
    (pod : Pod) (name : String)
    → lookup topology_scheduling_label_key pod.labels ≡ some name
    → pod_require_topology_scheduling pod ≡ true
unfolding pod_require_topology_scheduling
required_of_named pod name named = rw (named, pod_require_topology_scheduling)

returns_nil_iff : (x : Status) → (returns x ≡ returns nil) ↔ (x ≡ nil)
returns_nil_iff x = (λ e. cc, λ e. ap returns e)

module _ {LabelSelector : Type 0} (k8s : Functions LabelSelector) where
  -- The count of a value of the policy's key over the nodes of the snapshot: none if no node that
  -- fits the pod has the value, and else the matching pods on the nodes with the value, as `int32`.
  abbrev pub snapshot_count :
      TopologySchedulingPolicy LabelSelector → Selector → Pod → List NodeInfo → String → Option ℤ
  snapshot_count tsp selector pod nodes value =
      let key = tsp.spec.topology_key in
      let pair : TopologyPair = record { key = key; value = value } in
      if any_of (fits_pair k8s key pod pair) nodes
      then some (int32 (pos (total key selector pod.namespace pair nodes)))
      else none

module _ {LabelSelector : Type 0} (k8s : Functions LabelSelector)
    (parallelize : List NodeInfo → List NodeInfo) where
  module _ (cs : CycleState StateData) (ts : TopologyScheduling LabelSelector) (st : cs.State)
      (pod : Pod) where
    get-written :
        (s : Option PreFilterState)
        → get_pre_filter_state cs (cs.write st pre_filter_state_key (pre_filter s)) ≡ ok s
    unfolding get_pre_filter_state
    get-written s = rw (cs.read-write st pre_filter_state_key (pre_filter s), get_pre_filter_state)

    pre_filter-run :
        (name : String) (s : PreFilterState) (h h' : Heap)
        → lookup topology_scheduling_label_key pod.labels ≡ some name
        → calculate_pre_filter_state_cache k8s parallelize ts pod h ≡ returns (ok (some s), h')
        → pre_filter_method cs k8s parallelize ts st pod h
          ≡ returns (nil, cs.write st pre_filter_state_key (pre_filter (some s)), h')
    unfolding pre_filter_method
    pre_filter-run name s h h' named run =
        rw (required_of_named pod name named, pre_filter_method) (rw run)

    filter-run :
        (name : String) (s : PreFilterState) (tsp : TopologySchedulingPolicy LabelSelector)
        (n : NodeInfo) (node : Node) (h : Heap)
        → lookup topology_scheduling_label_key pod.labels ≡ some name
        → ts.topology_policy_lister.get pod.namespace name ≡ ok tsp
        → n.node ≡ some node
        → filter cs ts (cs.write st pre_filter_state_key (pre_filter (some s))) pod n h
          ≡ returns (filter_node s tsp pod node h)
    unfolding filter filter_state
    filter-run name s tsp n node h named got there =
        rw (required_of_named pod name named, filter)
          (rw there (rw (get-written (some s)) (rw named (rw got))))

    -- PreFilter stores a state and succeeds; after it, Filter lets a matching pod onto a labelled
    -- node exactly when the counts of the snapshot admit it: every value that the policy places has
    -- its replicas, or the policy places the node's value and that value lacks replicas. This holds
    -- for every order in which the workers count the nodes.
    pub filter-pre_filter :
        (tsp : TopologySchedulingPolicy LabelSelector) (nodes : List NodeInfo) (selector : Selector)
        (h : Heap) (n : NodeInfo) (node : Node) (v : String)
        → Reads k8s parallelize ts pod tsp nodes selector
        → Perm (parallelize nodes) nodes
        → all_of is_present nodes ≡ true
        → All IsInt32 h
        → n.node ≡ some node
        → lookup tsp.spec.topology_key node.labels ≡ some v
        → selector.matches pod.labels ≡ true
        → Returns (pre_filter_method cs k8s parallelize ts st pod h) λ r.
          (r.0 ≡ nil)
          × ((filter cs ts r.1 pod n r.2 ≡ returns nil)
              ↔ Admits
                  (covert_policy tsp.spec.deploy_placement)
                  (snapshot_count k8s tsp selector pod nodes)
                  v)
    filter-pre_filter tsp nodes selector h n node v reads order present fits there labelled
          matches =
        let ((r, h'), run, (s, stored, constraint, _, _, views, _)) =
          calculate_counts k8s parallelize ts pod tsp nodes selector h reads order fits present in
        let decision =
          filter_node_iff s tsp pod node h' v
            (ap (λ c. c.selector.matches pod.labels) constraint ∙ matches) labelled
            (subst (λ p. IsMap p) (sym (ap (λ c. c.schedule_policy) constraint))
              (covert_policy-IsMap tsp.spec.deploy_placement)) in
        let same : Admits s.constraint.schedule_policy
              (λ value.
                view s.tp_pair_to_match_num h'
                  (record { key = tsp.spec.topology_key; value = value }))
              v
            ≡ Admits (covert_policy tsp.spec.deploy_placement)
                (snapshot_count k8s tsp selector pod nodes) v =
          ap₂ (λ p c. Admits p c v) (ap (λ c. c.schedule_policy) constraint)
            (fun_ext λ value. views (record { key = tsp.spec.topology_key; value = value })) in
        let counts = subst (λ T. (filter_node s tsp pod node h' ≡ nil) ↔ T) same decision in
        let asked = filter-run reads.policy_name s tsp n node h' reads.named reads.got there in
        (
          (nil, cs.write st pre_filter_state_key (pre_filter (some s)), h'),
          pre_filter-run reads.policy_name s h h' reads.named
              (run ∙ ap (λ o. returns (o, h')) stored),
          (
            refl,
            (
              λ e. counts.0 ((returns_nil_iff _).0 (sym asked ∙ e)),
              λ a. asked ∙ (returns_nil_iff _).1 (counts.1 a),
            ),
          ),
        )
