-- ===== src/Descheduler/Rounds.antt =====
-- pkg/descheduler/descheduler.go: the clients, the checks before the start, and the rounds.
pub mod Stop
use super_scheduling.Prelude.{
  ℕ, Bool, true, false, not, ◌&&◌, Option, none, some, List, [], ◌∷◌, String, Map, lookup, length,
  leb, ℤ, pos, ltb_ℤ, Result, Error, ok, err, message, wrap, ◌==◌, string_eq, if◌then◌else◌,
}
use super_scheduling.Api.Kubernetes.{Node}

-- What `CreateClient` calls, for configurations and clients of the types `Config` and `Client`.
pub record ClientFunctions (Config Client : Type 0) : Type 0 where
  pub get_master_from_kubeconfig : String → Result String
  pub build_config_from_flags : String → String → Result Config
  pub in_cluster_config : Result Config
  pub new_for_config : Config → Result Client

module _ {Config Client : Type 0} (k8s : ClientFunctions Config Client) where
  unfoldable pub config_of : String → Result Config
  config_of kubeconfig =
      if not (kubeconfig == "")
      then elim (k8s.get_master_from_kubeconfig kubeconfig) [
        | err e ↦ err (wrap "Failed to parse kubeconfig file" e)
        | ok master ↦ elim (k8s.build_config_from_flags master kubeconfig) [
          | err e ↦ err (wrap "Unable to build config" e)
          | ok cfg ↦ ok cfg
        ]
      ]
      else elim k8s.in_cluster_config [
        | err e ↦ err (wrap "Unable to build in cluster config" e)
        | ok cfg ↦ ok cfg
      ]

  unfoldable pub create_client : String → Result Client
  unfolding config_of
  create_client kubeconfig = elim (config_of kubeconfig) [
    | err e ↦ err e
    | ok cfg ↦ k8s.new_for_config cfg
  ]

-- The configuration of the server. The interval is a number of nanoseconds.
pub record DeschedulerServer : Type 0 where
  pub kubeconfig_file : String
  pub policy_config_file : String
  pub node_selector : String
  pub evict_local_storage_pods : Bool
  pub max_no_of_pods_to_evict_per_node : ℤ
  pub dry_run : Bool
  pub descheduling_interval : ℤ

-- api.DeschedulerPolicy; of a strategy, whether it is enabled.
pub record DeschedulerPolicy : Type 0 where
  pub node_selector : Option String
  pub evict_local_storage_pods : Option Bool
  pub max_no_of_pods_to_evict_per_node : Option ℤ
  pub strategies : Map String Bool

-- The arguments of evictions.NewPodEvictor.
pub record PodEvictor : Type 0 where
  pub policy_group_version : String
  pub dry_run : Bool
  pub max_pods_to_evict : ℤ
  pub nodes : List Node
  pub evict_local_storage_pods : Bool

-- A call of a strategy of the map, by its name.
pub record StrategyCall : Type 0 where
  pub name : String
  pub pod_evictor : PodEvictor

abbrev pub strategy_funcs : List String
strategy_funcs =
    "RemoveDuplicates" ∷ "LowNodeUtilization" ∷ "RemovePodsViolatingInterPodAntiAffinity"
    ∷ "RemovePodsViolatingNodeAffinity" ∷ "RemovePodsViolatingNodeTaints"
    ∷ "RemovePodsHavingTooManyRestarts" ∷ "PodLifeTime"
    ∷ "RemovePodsViolatingTopologySpreadConstraint" ∷ "RemovePodsViolatingTopologySchedulingPolicy"
    ∷ []

-- The value of the policy, and the server's where the policy has none.
abbrev pub override {ℓ} : {A : Type ℓ} → Option A → A → A
override none value = value
override (some own) value = own

unfoldable pub is_enabled : DeschedulerPolicy → String → Bool
is_enabled policy name = elim (lookup name policy.strategies) [
  | none ↦ false
  | some enabled ↦ enabled
]

-- A Duration's `Seconds()` is 0 exactly if the Duration is.
unfoldable pub is_zero : ℤ → Bool
is_zero interval = not (ltb_ℤ interval (pos 0)) && not (ltb_ℤ (pos 0) interval)

unfoldable pub call_strategies : DeschedulerPolicy → PodEvictor → List String → List StrategyCall
unfolding is_enabled
call_strategies policy pod_evictor [] = []
call_strategies policy pod_evictor (name ∷ names) =
    let rest = call_strategies policy pod_evictor names in
    if is_enabled policy name
    then record { name = name; pod_evictor = pod_evictor } ∷ rest
    else rest

-- What the loop finds in one round: the ready nodes for a selector, and the order of the `range`
-- over the strategies.
pub record Round : Type 0 where
  pub ready_nodes : String → Result (List Node)
  pub range : List String → List String

module _ (rs : DeschedulerServer) (policy : DeschedulerPolicy) (version : String) where
  abbrev pub pod_evictor_of : List Node → PodEvictor
  pod_evictor_of nodes = record {
    policy_group_version = version;
    dry_run = rs.dry_run;
    max_pods_to_evict =
        override policy.max_no_of_pods_to_evict_per_node rs.max_no_of_pods_to_evict_per_node;
    nodes = nodes;
    evict_local_storage_pods = override policy.evict_local_storage_pods rs.evict_local_storage_pods;
  }

  -- One round: the strategies that it calls, and whether it closes the stop channel.
  unfoldable pub run_round : Round → List StrategyCall × Bool
  unfolding call_strategies is_zero
  run_round round = elim (round.ready_nodes (override policy.node_selector rs.node_selector)) [
    | err e ↦ ([], true)
    | ok nodes ↦ if leb (length nodes) 1 then ([], true) else (
      call_strategies policy (pod_evictor_of nodes) (round.range strategy_funcs),
      is_zero rs.descheduling_interval,
    )
  ]

  -- wait.Until runs a round after the other until the stop channel is closed. The list has what the
  -- rounds find; the loop leaves what follows the closing round unused.
  unfoldable pub run_descheduler_strategies : List Round → List (List StrategyCall)
  unfolding run_round
  run_descheduler_strategies [] = []
  run_descheduler_strategies (round ∷ rounds) =
      let (calls, closed) = run_round round in
      let rest = run_descheduler_strategies rounds in if closed then calls ∷ [] else calls ∷ rest

-- What `Run` calls: the clients, the policy file, whose policy may be nil, and SupportEviction.
pub record RunFunctions (Config Client : Type 0) : Type 0 where
  pub clients : ClientFunctions Config Client
  pub create_kubernetes_client : String → Result Client
  pub load_policy_config : String → Result (Option DeschedulerPolicy)
  pub support_eviction : Client → Result String

-- The result is the error, if any, and what the rounds call.
unfoldable pub run_descheduler :
    {Config Client : Type 0}
    → RunFunctions Config Client
    → DeschedulerServer
    → List Round
    → Option Error × List (List StrategyCall)
unfolding create_client run_descheduler_strategies
run_descheduler k8s rs rounds = elim (k8s.create_kubernetes_client rs.kubeconfig_file) [
  | err e ↦ (some e, [])
  | ok rsclient ↦ elim (create_client k8s.clients rs.kubeconfig_file) [
    | err e ↦ (some e, [])
    | ok tspclient ↦ elim (k8s.load_policy_config rs.policy_config_file) [
      | err e ↦ (some e, [])
      | ok policy ↦ elim policy [
        | none ↦ (some (message "deschedulerPolicy is nil"), [])
        | some descheduler_policy ↦ elim (k8s.support_eviction rsclient) [
          | err e ↦ (some e, [])
          | ok version ↦
              if version == ""
              then (none, [])
              else (none, run_descheduler_strategies rs descheduler_policy version rounds)
        ]
      ]
    ]
  ]
]
