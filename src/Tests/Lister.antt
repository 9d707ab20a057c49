-- ===== src/Tests/Lister.antt =====
-- The theorem about the lister, for an indexer with one policy.
use super_scheduling.Prelude.{
  ◌≡◌, ◌↔◌, ◌⊎◌, none, some, List, [], ◌∷◌, Error, ok, err, message, ◌==◌, string_eq, if◌then◌else◌,
}
use super_scheduling.Api.Kubernetes.{Selector}
use super_scheduling.Api.Scheduling.{TopologySchedulingPolicy}
use super_scheduling.Lister.{Indexer, new_topology_scheduling_policy_lister}
use super_scheduling.Lister.Found.{lister_iff}
use super_scheduling.Tests.Samples.{policy_zone}

abbrev indexer : Indexer (TopologySchedulingPolicy Unit)
indexer = record {
  list_all = λ _. (policy_zone ∷ [], none);
  list_all_by_namespace = λ _ _. (policy_zone ∷ [], none);
  get_by_key = λ key. if key == "default/policy-zone" then ok (some policy_zone) else ok none;
  not_found = λ _. message "not found";
}

lister_iff_example :
    ((selector : Selector) (tsps : List (TopologySchedulingPolicy Unit))
      → ((new_topology_scheduling_policy_lister indexer).list "default" selector ≡ ok tsps)
        ↔ (indexer.list_all_by_namespace "default" selector ≡ (tsps, none)))
    × ((selector : Selector) (e : Error)
        → ((new_topology_scheduling_policy_lister indexer).list "default" selector ≡ err e)
          ↔ ((indexer.list_all_by_namespace "default" selector).1 ≡ some e))
    × ((tsp : TopologySchedulingPolicy Unit)
        → ((new_topology_scheduling_policy_lister indexer).get "default" "policy-zone" ≡ ok tsp)
          ↔ (indexer.get_by_key "default/policy-zone" ≡ ok (some tsp)))
    × ((e : Error)
        → ((new_topology_scheduling_policy_lister indexer).get "default" "policy-zone" ≡ err e) ↔ (
            (indexer.get_by_key "default/policy-zone" ≡ err e)
            ⊎ ((indexer.get_by_key "default/policy-zone" ≡ ok none)
                × (e ≡ indexer.not_found "policy-zone"))))
lister_iff_example = lister_iff indexer "default" "policy-zone"
