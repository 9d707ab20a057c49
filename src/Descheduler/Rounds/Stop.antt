-- ===== src/Descheduler/Rounds/Stop.antt =====
-- When the rounds end, and what they may call.
use super_scheduling.Prelude.{
  ◌⊎◌, ◌↔◌, Option, none, some, lookup, string_eq, All-imp, Option-cases, negsuc, subst, ◌≤◌, ◌≡◌,
  refl, ap, true, false, List, [], ◌∷◌, ◌++◌, map, String, length, leb, All, ℤ, pos, ok, arith,
  Bool-cases, Result-cases, inl, inr,
}
use super_scheduling.Api.Kubernetes.{Node}
use super_scheduling.Descheduler.Rounds.{
  DeschedulerServer, DeschedulerPolicy, StrategyCall, strategy_funcs, override, is_enabled, is_zero,
  call_strategies, Round, pod_evictor_of, run_round, run_descheduler_strategies,
}

is_zero_iff : (interval : ℤ) → (is_zero interval ≡ true) ↔ (interval ≡ pos 0)
unfolding is_zero
is_zero_iff (pos n) = ground arith
is_zero_iff (negsuc n) = ground arith

few_lem : {A : Type 0} (xs : List A) → leb (length xs) 1 ≡ true → ¬ (2 ≤ length xs)
few_lem xs few enough = ground arith

many_lem : {A : Type 0} (xs : List A) → leb (length xs) 1 ≡ false → 2 ≤ length xs
many_lem xs many = ground arith

module _ (rs : DeschedulerServer) (policy : DeschedulerPolicy) (version : String) where
  -- A round closes the stop channel exactly if the ready nodes cannot be read, there are fewer than
  -- two, or no interval is set.
  pub round_closes_iff :
      (round : Round)
      → ((run_round rs policy version round).1 ≡ true) ↔ (
          (nodes : List Node)
          → round.ready_nodes (override policy.node_selector rs.node_selector) ≡ ok nodes
          → 2 ≤ length nodes
          → rs.descheduling_interval ≡ pos 0)
  unfolding run_round
  round_closes_iff round =
      elim (Result-cases (round.ready_nodes (override policy.node_selector rs.node_selector))) [
        | inl (e, failed) ↦ (λ _ nodes ready. cc (failed, ready), λ _. rw (failed, run_round) refl)
        | inr (found, ready) ↦ elim (Bool-cases (leb (length found) 1)) [
          | inl few ↦ (
            λ _ nodes ready' enough.
                let same : nodes ≡ found = cc (ready, ready') in
                absurd (few_lem found few (subst (λ ns. 2 ≤ length ns) same enough)),
            λ _. rw (ready, run_round) (rw few refl),
          )
          | inr many ↦ (
            λ closes nodes _ _.
                (is_zero_iff rs.descheduling_interval).0
                  (rw many at (rw (ready, run_round) at closes)),
            λ all.
                rw (ready, run_round)
                  (rw many (
                    (is_zero_iff rs.descheduling_interval).1
                      (all found ready (many_lem found many)))),
          )
        ]
      ]

  rounds_until :
      (before after : List Round) (last : Round)
      → All (λ round. (run_round rs policy version round).1 ≡ false) before
      → (run_round rs policy version last).1 ≡ true
      → run_descheduler_strategies rs policy version (before ++ last ∷ after)
        ≡ map (λ round. (run_round rs policy version round).0) (before ++ last ∷ [])
  unfolding run_descheduler_strategies
  rounds_until [] after last going closes = rw closes refl
  rounds_until (round ∷ before) after last (open_still, going) closes = rw open_still (
      ap (λ rest. (run_round rs policy version round).0 ∷ rest)
        (rounds_until before after last going closes))

  -- The ready nodes of the round cannot be read, or there are fewer than two, or no interval is set.
  abbrev pub IsLast : Round → Type 0
  IsLast round =
      (nodes : List Node)
      → round.ready_nodes (override policy.node_selector rs.node_selector) ≡ ok nodes
      → 2 ≤ length nodes
      → rs.descheduling_interval ≡ pos 0

  open_round : (round : Round) → ¬ IsLast round → (run_round rs policy version round).1 ≡ false
  open_round round goes_on = elim (Bool-cases (run_round rs policy version round).1) [
    | inl closes ↦ absurd (goes_on ((round_closes_iff round).0 closes))
    | inr still ↦ still
  ]

  -- Rounds that have at least two ready nodes, with an interval that is set, are followed by the
  -- next one, and a round whose ready nodes cannot be read or are fewer than two, or that has no
  -- interval, is the last one: the rounds before it and it are run, and none after it.
  pub rounds-append :
      (before after : List Round) (last : Round)
      → All (λ round. ¬ IsLast round) before
      → IsLast last
      → run_descheduler_strategies rs policy version (before ++ last ∷ after)
        ≡ map (λ round. (run_round rs policy version round).0) (before ++ last ∷ [])
  rounds-append before after last going ends =
      rounds_until before after last (All-imp _ _ before open_round going)
        ((round_closes_iff last).1 ends)

  -- The value is the policy's where the policy has one, and else the server's.
  abbrev pub IsSetting : {A : Type 0} → Option A → A → A → Type 0
  IsSetting {A} own servers value =
      ((own ≡ none) × (value ≡ servers)) ⊎ ((x : A) × (own ≡ some x) × (value ≡ x))

  -- A call of a strategy that the policy enables, with at least two nodes and under the settings.
  pub record IsAllowed (call : StrategyCall) : Type 0 where
    pub enabled : lookup call.name policy.strategies ≡ some true
    pub nodes : 2 ≤ length call.pod_evictor.nodes
    pub version_of : call.pod_evictor.policy_group_version ≡ version
    pub dry_run : call.pod_evictor.dry_run ≡ rs.dry_run
    pub max_pods :
        IsSetting policy.max_no_of_pods_to_evict_per_node rs.max_no_of_pods_to_evict_per_node
          call.pod_evictor.max_pods_to_evict
    pub local_storage :
        IsSetting policy.evict_local_storage_pods rs.evict_local_storage_pods
          call.pod_evictor.evict_local_storage_pods

  override-IsSetting :
      {A : Type 0} (own : Option A) (servers : A) → IsSetting own servers (override own servers)
  override-IsSetting none servers = inl (refl, refl)
  override-IsSetting (some x) servers = inr (x, refl, refl)

  enabled_lem :
      (name : String) → is_enabled policy name ≡ true → lookup name policy.strategies ≡ some true
  unfolding is_enabled
  enabled_lem name on = elim (Option-cases (lookup name policy.strategies)) [
    | inl missing ↦ absurd (ground (arith, missing, on))
    | inr (b, found) ↦ ground (arith, found, on)
  ]

  call-IsAllowed :
      (nodes : List Node) (name : String)
      → 2 ≤ length nodes
      → is_enabled policy name ≡ true
      → IsAllowed (record { name = name; pod_evictor = pod_evictor_of rs policy version nodes })
  call-IsAllowed nodes name enough on = record {
    enabled = enabled_lem name on;
    nodes = enough;
    version_of = refl;
    dry_run = refl;
    max_pods =
        override-IsSetting policy.max_no_of_pods_to_evict_per_node
          rs.max_no_of_pods_to_evict_per_node;
    local_storage = override-IsSetting policy.evict_local_storage_pods rs.evict_local_storage_pods;
  }

  call_strategies-IsAllowed :
      (nodes : List Node) (names : List String)
      → 2 ≤ length nodes
      → All IsAllowed (call_strategies policy (pod_evictor_of rs policy version nodes) names)
  unfolding call_strategies
  call_strategies-IsAllowed nodes [] enough = tt
  call_strategies-IsAllowed nodes (name ∷ names) enough =
      elim (Bool-cases (is_enabled policy name)) [
        | inl on ↦
            rw on
              (call-IsAllowed nodes name enough on, call_strategies-IsAllowed nodes names enough)
        | inr off ↦ rw off (call_strategies-IsAllowed nodes names enough)
      ]

  round-IsAllowed : (round : Round) → All IsAllowed (run_round rs policy version round).0
  unfolding run_round
  round-IsAllowed round =
      elim (Result-cases (round.ready_nodes (override policy.node_selector rs.node_selector))) [
        | inl (e, failed) ↦ rw (failed, run_round) tt
        | inr (nodes, ready) ↦ elim (Bool-cases (leb (length nodes) 1)) [
          | inl few ↦ rw (ready, run_round) (rw few tt)
          | inr many ↦
              rw (ready, run_round)
                (rw many
                  (call_strategies-IsAllowed nodes (round.range strategy_funcs) (ground arith)))
        ]
      ]

  -- In every round, whatever the nodes and the order of the strategies, only strategies that the
  -- policy enables are called, only with at least two ready nodes, with the policy's group version
  -- and the server's dry run, and with the policy's limit of pods per node and local storage where
  -- the policy sets them, the server's otherwise.
  pub rounds-IsAllowed :
      (rounds : List Round)
      → All (λ calls. All IsAllowed calls) (run_descheduler_strategies rs policy version rounds)
  unfolding run_descheduler_strategies
  rounds-IsAllowed [] = tt
  rounds-IsAllowed (round ∷ rounds) = elim (Bool-cases (run_round rs policy version round).1) [
    | inl closes ↦ rw closes (round-IsAllowed round, tt)
    | inr goes_on ↦ rw goes_on (round-IsAllowed round, rounds-IsAllowed rounds)
  ]
