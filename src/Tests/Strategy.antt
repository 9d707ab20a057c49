-- ===== src/Tests/Strategy.antt =====
-- The theorems about the descheduler's strategy: three pods in zone a that should have two, none in
-- zone b.
use super_scheduling.Prelude.{
  ℕ, ◌-◌, ◌≡◌, refl, ◌↔◌, true, false, some, List, [], ◌∷◌, map, String, Map, lookup, insert, IsMap,
  length, take, ℤ, pos, negsuc, sub32, add32, ◌≤ℤ◌, returns, panics, Returns, ok, ◌==◌, string_eq,
  if◌then◌else◌, arith, Bool-cases, inl, inr,
}
use mathlib.Core.List.Perm
use super_scheduling.Api.Kubernetes.{Pod, PodPhase, Node, label_value}
use super_scheduling.Api.Scheduling.{TopologyPair, topology_pair_eq, TopologySchedulingConstraint}
use super_scheduling.Descheduler.Strategy.{
  TopoPairCount, count_pods, desired, check_topo_reached, evict_first, Environment, evict_pair,
  evict_pairs, deschedule_pods,
}
use super_scheduling.Descheduler.Strategy.Counting.{
  pods_of, counter_of, Collects, count_pods-Collects,
}
use super_scheduling.Descheduler.Strategy.Reached.{IsCount, check_topo_reached_iff}
use super_scheduling.Descheduler.Strategy.Evicting.{
  eviction_of, IsCounter, evict_pair-take, evict_pair-panics,
}
use super_scheduling.Descheduler.Strategy.Totals.{
  evicted, IsFaithful, IsCountPolicy, deschedule_pods-total,
}
use super_scheduling.Tests.Samples.{pod_on, node_a, node_b, by_app, functions}

abbrev node_map : Map String Node
node_map = ("node-a", node_a) ∷ ("node-b", node_b) ∷ []

abbrev pod_1 : Pod
pod_1 = pod_on "p1" "node-a" PodPhase.running

abbrev pod_2 : Pod
pod_2 = pod_on "p2" "node-a" PodPhase.pending

abbrev pod_3 : Pod
pod_3 = pod_on "p3" "node-b" PodPhase.running

abbrev pod_4 : Pod
pod_4 = pod_on "p4" "node-a" PodPhase.running

abbrev pods : List Pod
pods = pod_1 ∷ pod_2 ∷ pod_3 ∷ pod_4 ∷ []

abbrev constraint : TopologySchedulingConstraint
constraint = record {
  topology_key = "zone";
  schedule_policy = ("a", pos 2) ∷ ("b", pos 2) ∷ [];
  selector = by_app;
}

-- The list is left in the order of the listing.
abbrev environment : Environment Unit
environment = record {
  k8s = functions;
  sort = λ _ ps. ps;
  name_less = λ _ _. false;
  range = λ counts. counts;
  list_pods = λ _ _. ok pods;
}

environment-IsFaithful : IsFaithful environment
environment-IsFaithful = record {
  sort-perm = λ ps. Perm.refl ps;
  range-lookup = λ counts pair. refl;
  range-IsMap = λ counts distinct. distinct;
}

constraint-IsCountPolicy : IsCountPolicy constraint.schedule_policy
unfolding desired lookup
constraint-IsCountPolicy value = elim (Bool-cases ("a" == value)) [
  | inl is_a ↦ (2, rw (is_a, desired, lookup), omega arith)
  | inr not_a ↦ elim (Bool-cases ("b" == value)) [
    | inl is_b ↦ (2, ground arith, omega arith)
    | inr not_b ↦ (0, ground arith, omega arith)
  ]
]

deschedule_pods-total_example :
    Returns (deschedule_pods environment node_map constraint pods) λ calls.
      (pair : TopologyPair) (d : ℕ)
      → desired constraint.schedule_policy pair.value ≡ pos d
      → evicted "zone" node_map pair calls ≡ (
          if check_topo_reached (count_pods "zone" node_map pods []) constraint
          then 0
          else length (pods_of "zone" node_map pair pods) - d)
deschedule_pods-total_example =
    deschedule_pods-total environment node_map constraint pods environment-IsFaithful
      constraint-IsCountPolicy (omega arith)

-- One pod of zone a is evicted.
deschedule_pods_run :
    deschedule_pods environment node_map constraint pods ≡ returns (eviction_of node_map pod_1 ∷ [])
unfolding deschedule_pods count_pods check_topo_reached evict_pairs evict_first sub32 add32 lookup
    insert label_value desired
deschedule_pods_run = refl

abbrev pair_a : TopologyPair
pair_a = record { key = "zone"; value = "a" }

abbrev counter_a : TopoPairCount
counter_a = record { count = pos 3; pods = pod_1 ∷ pod_2 ∷ pod_4 ∷ [] }

count_pods-Collects_example :
    (collected : List Pod) × Collects "zone" node_map pair_a pods collected
    × (lookup pair_a (count_pods "zone" node_map pods []) ≡ counter_of collected)
count_pods-Collects_example = count_pods-Collects "zone" node_map pods pair_a

counter_a_fits :
    (pair : TopologyPair) (counter : TopoPairCount)
    → lookup pair ((pair_a, counter_a) ∷ []) ≡ some counter
    → IsCount (desired constraint.schedule_policy pair.value) × IsCount counter.count
unfolding lookup
counter_a_fits pair counter found =
    (constraint-IsCountPolicy pair.value, (3, ground arith, omega arith))

counter_a-IsCounter : (policy : Map String ℤ) → IsCounter environment node_map policy counter_a
counter_a-IsCounter policy = record { counted = refl; small = omega arith; kept = refl }

check_topo_reached_iff_example :
    (check_topo_reached ((pair_a, counter_a) ∷ []) constraint ≡ true) ↔ (
      (pair : TopologyPair) (counter : TopoPairCount)
      → lookup pair ((pair_a, counter_a) ∷ []) ≡ some counter
      → desired constraint.schedule_policy pair.value ≤ℤ counter.count)
check_topo_reached_iff_example =
    check_topo_reached_iff ((pair_a, counter_a) ∷ []) constraint (unfold IsMap lookup in (refl, tt))
      counter_a_fits

evict_pair-take_example :
    evict_pair environment node_map constraint.schedule_policy pair_a counter_a
    ≡ returns (map (eviction_of node_map) (take 1 counter_a.pods))
evict_pair-take_example =
    evict_pair-take environment node_map constraint.schedule_policy pair_a counter_a
      (counter_a-IsCounter constraint.schedule_policy) 2 (unfold desired lookup in refl)
      (omega arith)

abbrev negative_policy : Map String ℤ
negative_policy = ("a", negsuc 0) ∷ []

evict_pair-panics_example :
    evict_pair environment node_map negative_policy pair_a counter_a ≡ panics
evict_pair-panics_example =
    evict_pair-panics environment node_map negative_policy pair_a counter_a
      (counter_a-IsCounter negative_policy) 0 (unfold desired lookup in refl) (omega arith)
