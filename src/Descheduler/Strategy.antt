-- ===== src/Descheduler/Strategy.antt =====
-- pkg/descheduler/strategies/topologyscheduling.go: pods that exceed the replicas of their topology
-- value are evicted.
pub mod Counting
pub mod Reached
pub mod Evicting
pub mod Totals
use super_scheduling.Prelude.{
  ℕ, zero, suc, ◌+◌, Bool, true, false, not, ◌&&◌, ◌||◌, Option, none, some, List, [], ◌∷◌, ◌++◌,
  String, Map, lookup, insert, ℤ, pos, negsuc, pos_part, ltb_ℤ, add32, sub32, Run, returns, panics,
  ◌>>=◌, Result, ok, err, ◌==◌, string_eq, if◌then◌else◌,
}
use text.Mathlib.Text.{◌==◌ as str_eq}
use super_scheduling.Api.Kubernetes.{
  Pod, PodPhase, Node, Selector, Functions, everything, label_value,
}
use super_scheduling.Api.Scheduling.{
  TopologyPair, topology_pair_eq, TopologySchedulingConstraint, TopologySchedulingPolicy,
  TopologySchedulingPolicySpec,
}
use super_scheduling.Api.Framework.{TopologySchedulingPolicyLister}
use super_scheduling.Util.{covert_policy}

-- The pods of a pair, in the order of the listing. The code changes a counter through a pointer
-- that only the map holds; here the entry of the map is replaced.
pub record TopoPairCount : Type 0 where
  pub count : ℤ
  pub pods : List Pod

abbrev pub Counts : Type 0
Counts = Map TopologyPair TopoPairCount

-- The loop that builds `nodeMap`.
unfoldable pub map_nodes : List Node → Map String Node → Map String Node
map_nodes [] node_map = node_map
map_nodes (node ∷ nodes) node_map = map_nodes nodes (insert node.name node node_map)

-- The pair under which a pod is counted; none for a terminating pod and for one whose node is not
-- in the map.
unfoldable pub pair_of_pod : String → Map String Node → Pod → Option TopologyPair
unfolding label_value
pair_of_pod key node_map pod = elim pod.deletion_timestamp [
  | some _ ↦ none
  | none ↦ elim (lookup pod.node_name node_map) [
    | none ↦ none
    | some node ↦ some (record { key = key; value = label_value key node.labels })
  ]
]

-- A first pod makes a counter, and a further pod is added to it.
unfoldable pub add_to_counter : Option TopoPairCount → Pod → TopoPairCount
add_to_counter none pod = record { count = pos 1; pods = pod ∷ [] }
add_to_counter (some counter) pod = record {
  count = add32 counter.count (pos 1);
  pods = counter.pods ++ pod ∷ [];
}

-- The loop over the pods of a policy.
unfoldable pub count_pods : String → Map String Node → List Pod → Counts → Counts
unfolding pair_of_pod add_to_counter
count_pods key node_map [] counts = counts
count_pods key node_map (pod ∷ pods) counts = elim (pair_of_pod key node_map pod) [
  | none ↦ count_pods key node_map pods counts
  | some pair ↦
      count_pods key node_map pods (insert pair (add_to_counter (lookup pair counts) pod) counts)
]

-- `constraint.SchedulePolicy[value]`: 0 where the policy does not place the value.
unfoldable pub desired : Map String ℤ → String → ℤ
desired policy value = elim (lookup value policy) [ none ↦ pos 0 | some r ↦ r ]

-- The loop of `checkTopoReached` with its two flags. Its result does not depend on the order in
-- which the counters are visited.
unfoldable pub check_topo : Counts → Map String ℤ → Bool → Bool → Bool
unfolding desired
check_topo [] policy satisfied not_satisfied = satisfied && not not_satisfied
check_topo ((pair, counter) ∷ counts) policy satisfied not_satisfied =
    let diff = sub32 (desired policy pair.value) counter.count in
    let above = ltb_ℤ (pos 0) diff in
    check_topo counts policy
      (if above then satisfied else if ltb_ℤ diff (pos 0) then true else satisfied)
      (if above then true else not_satisfied)

unfoldable pub check_topo_reached : Counts → TopologySchedulingConstraint → Bool
unfolding check_topo
check_topo_reached pair constraint = check_topo pair constraint.schedule_policy true false

is_finished : PodPhase → Bool
is_finished PodPhase.failed = true
is_finished PodPhase.succeeded = true
is_finished _ = false

is_pending : PodPhase → Bool
is_pending PodPhase.pending = true
is_pending _ = false

-- `Less` on two elements; `name_less` is Go's `<` on texts.
unfoldable pub less : (String → String → Bool) → Pod → Pod → Bool
unfolding is_finished is_pending
less name_less p q =
    if is_finished p.phase
    then true
    else if is_pending p.phase
    then true
    else if is_finished q.phase
    then false
    else if is_pending q.phase
    then false
    else name_less p.name q.name

-- A call of `podEvictor.EvictPod`; its results are not used.
pub record Eviction : Type 0 where
  pub pod : Pod
  pub node : Option Node
  pub reason : String

-- The calls for the first `n` pods. An index past the end panics; the calls before a panic are
-- not kept.
unfoldable pub evict_first : Map String Node → ℕ → List Pod → Run (List Eviction)
evict_first node_map zero pods = returns []
evict_first node_map (suc n) [] = panics
evict_first node_map (suc n) (pod ∷ pods) = evict_first node_map n pods >>= λ calls. returns (
    record {
      pod = pod;
      node = lookup pod.node_name node_map;
      reason = "Exceeded the policy desired";
    }
    ∷ calls)

-- What the strategy calls outside the repository: sort.Sort, Go's order on texts, the order in
-- which the evicting `range` visits the counters, and the listing of pods by namespace and selector.
pub record Environment (LabelSelector : Type 0) : Type 0 where
  pub k8s : Functions LabelSelector
  pub sort : (Pod → Pod → Bool) → List Pod → List Pod
  pub name_less : String → String → Bool
  pub range : Counts → Counts
  pub list_pods : String → String → Result (List Pod)

module _ {LabelSelector : Type 0} (env : Environment LabelSelector) where
  -- The evictions of one pair. `diff` and its negation wrap around.
  unfoldable pub evict_pair :
      Map String Node → Map String ℤ → TopologyPair → TopoPairCount → Run (List Eviction)
  unfolding evict_first
  evict_pair node_map policy pair counter =
      let diff = sub32 (desired policy pair.value) counter.count in
      if not (ltb_ℤ diff (pos 0))
      then returns []
      else evict_first node_map (pos_part (sub32 (pos 0) diff))
          (env.sort (less env.name_less) counter.pods)

  unfoldable pub evict_pairs : Map String Node → Map String ℤ → Counts → Run (List Eviction)
  unfolding evict_pair
  evict_pairs node_map policy [] = returns []
  evict_pairs node_map policy ((pair, counter) ∷ counts) =
      evict_pair node_map policy pair counter >>= λ calls.
      evict_pairs node_map policy counts >>= λ rest. returns (calls ++ rest)

  -- The work on one policy once its pods are listed.
  unfoldable pub deschedule_pods :
      Map String Node → TopologySchedulingConstraint → List Pod → Run (List Eviction)
  unfolding evict_pairs
  deschedule_pods node_map constraint pods =
      let counts = count_pods constraint.topology_key node_map pods [] in
      if check_topo_reached counts constraint
      then returns []
      else evict_pairs node_map constraint.schedule_policy (env.range counts)

  -- A policy whose selector does not parse or whose pods cannot be listed is passed over.
  unfoldable pub deschedule_policy :
      Map String Node → TopologySchedulingPolicy LabelSelector → Run (List Eviction)
  unfolding deschedule_pods
  deschedule_policy node_map tsp =
      elim (env.k8s.label_selector_as_selector tsp.spec.label_selector) [
        | err e ↦ returns []
        | ok selector ↦
            elim (env.list_pods tsp.namespace
              (env.k8s.format_label_selector tsp.spec.label_selector)) [
                | err e ↦ returns []
                | ok pods ↦
                    deschedule_pods node_map
                      (record {
                        topology_key = tsp.spec.topology_key;
                        schedule_policy = covert_policy tsp.spec.deploy_placement;
                        selector = selector;
                      })
                      pods
              ]
      ]

  unfoldable pub deschedule_policies :
      Map String Node → List (TopologySchedulingPolicy LabelSelector) → Run (List Eviction)
  unfolding deschedule_policy
  deschedule_policies node_map [] = returns []
  deschedule_policies node_map (tsp ∷ tsps) = deschedule_policy node_map tsp >>= λ calls.
      deschedule_policies node_map tsps >>= λ rest. returns (calls ++ rest)

  -- The lister may be nil, and the policies of all namespaces are listed.
  unfoldable pub remove_pods_violating_topology_scheduling_policy :
      List Node → Option (TopologySchedulingPolicyLister LabelSelector) → Run (List Eviction)
  unfolding deschedule_policies map_nodes
  remove_pods_violating_topology_scheduling_policy nodes none = returns []
  remove_pods_violating_topology_scheduling_policy nodes (some tsp_lister) =
      elim (tsp_lister.list "" everything) [
        | err e ↦ returns []
        | ok tsps ↦ deschedule_policies (map_nodes nodes []) tsps
      ]
