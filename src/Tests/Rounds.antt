-- ===== src/Tests/Rounds.antt =====
-- The theorems about the rounds of the descheduler: two ready nodes, then an error.
use super_scheduling.Prelude.{
  ◌↔◌, ◌≡◌, ◌≤◌, refl, true, false, none, some, List, [], ◌∷◌, map, length, All, pos, lookup,
  string_eq, ok, err, message, arith,
}
use super_scheduling.Api.Kubernetes.{Node}
use super_scheduling.Descheduler.Rounds.{
  DeschedulerServer, DeschedulerPolicy, Round, is_enabled, override, run_round,
  run_descheduler_strategies,
}
use super_scheduling.Descheduler.Rounds.Stop.{
  rounds-append, round_closes_iff, IsAllowed, rounds-IsAllowed,
}
use super_scheduling.Tests.Samples.{node_a, node_b}

abbrev server : DeschedulerServer
server = record {
  kubeconfig_file = "config";
  policy_config_file = "policy";
  node_selector = "";
  evict_local_storage_pods = false;
  max_no_of_pods_to_evict_per_node = pos 0;
  dry_run = false;
  descheduling_interval = pos 60;
}

abbrev policy : DeschedulerPolicy
policy = record {
  node_selector = some "pool=a";
  evict_local_storage_pods = none;
  max_no_of_pods_to_evict_per_node = some (pos 5);
  strategies = ("PodLifeTime", true) ∷ ("LowNodeUtilization", false) ∷ [];
}

abbrev good_round : Round
good_round = record { ready_nodes = λ _. ok (node_a ∷ node_b ∷ []); range = λ names. names }

abbrev bad_round : Round
bad_round = record { ready_nodes = λ _. err (message "no nodes"); range = λ names. names }

rounds-append_example :
    run_descheduler_strategies server policy "v1" (good_round ∷ bad_round ∷ good_round ∷ [])
    ≡ map (λ round. (run_round server policy "v1" round).0) (good_round ∷ bad_round ∷ [])
rounds-append_example =
    rounds-append server policy "v1" (good_round ∷ []) (good_round ∷ []) bad_round
      ((λ ends. absurd (ground (arith, ends _ refl (omega arith)))), tt) (λ nodes ready. cc ready)

round_closes_iff_example : ((run_round server policy "v1" good_round).1 ≡ true) ↔ (
    (nodes : List Node)
    → good_round.ready_nodes (override policy.node_selector server.node_selector) ≡ ok nodes
    → 2 ≤ length nodes
    → server.descheduling_interval ≡ pos 0)
round_closes_iff_example = round_closes_iff server policy "v1" good_round

rounds-IsAllowed_example :
    All
      (λ calls. All (IsAllowed server policy "v1") calls)
      (run_descheduler_strategies server policy "v1" (good_round ∷ bad_round ∷ []))
rounds-IsAllowed_example = rounds-IsAllowed server policy "v1" (good_round ∷ bad_round ∷ [])

-- One strategy is enabled, and it is called once.
rounds_run :
    map length (run_descheduler_strategies server policy "v1" (good_round ∷ bad_round ∷ []))
    ≡ 1 ∷ 0 ∷ []
unfolding run_descheduler_strategies is_enabled lookup
rounds_run = refl
