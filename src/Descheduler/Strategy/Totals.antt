-- ===== src/Descheduler/Strategy/Totals.antt =====
-- How many pods of each pair the strategy evicts for one policy.
use super_scheduling.Prelude.{
  ℕ, zero, suc, ◌+◌, ◌-◌, ◌^◌, ◌≤◌, ◌<◌, ◌≡◌, refl, sym, ◌∙◌, ap, ap₂, subst, Bool, true, false,
  Option, none, some, List, [], ◌∷◌, ◌++◌, map, String, Map, lookup, length, take, sum_of, all_of,
  all_of-perm, sum_of-perm, Perm, ℤ, pos, pos_part, int32, int32_of_IsInt32, Returns, ◌==◌, ==_iff,
  ==_refl, if◌then◌else◌, arith, Option-cases, Bool-cases, inl, inr, lookup-cons, lookup-nil, IsMap,
  string_eq,
}
use super_scheduling.Api.Kubernetes.{Pod, Node}
use super_scheduling.Api.Scheduling.{TopologyPair, topology_pair_eq, TopologySchedulingConstraint}
use super_scheduling.Descheduler.Strategy.{
  TopoPairCount, Counts, pair_of_pod, count_pods, desired, less, Eviction, Environment, evict_pair,
  evict_pairs, check_topo_reached, deschedule_pods,
}
use super_scheduling.Descheduler.Strategy.Counting.{
  pods_of, counter_of, lookup-count_pods, count_pods-IsMap,
}
use super_scheduling.Descheduler.Strategy.Evicting.{eviction_of, evict_pair-take}

module _ (key : String) (node_map : Map String Node) where
  -- The pod is counted under the pair.
  unfoldable pub is_in : TopologyPair → Pod → Bool
  is_in pair pod = elim (pair_of_pod key node_map pod) [ none ↦ false | some p ↦ p == pair ]

  -- The evicted pods that are counted under the pair.
  unfoldable pub evicted : TopologyPair → List Eviction → ℕ
  evicted pair = sum_of (λ call. if is_in pair call.pod then 1 else 0)

  evicted-append :
      (pair : TopologyPair) (xs ys : List Eviction)
      → evicted pair (xs ++ ys) ≡ evicted pair xs + evicted pair ys
  unfolding evicted sum_of
  evicted-append pair [] ys = omega arith
  evicted-append pair (x ∷ xs) ys = omega (arith, evicted-append pair xs ys)

  is_in-pods_of :
      (pair : TopologyPair) (pods : List Pod)
      → all_of (is_in pair) (pods_of key node_map pair pods) ≡ true
  unfolding all_of is_in pods_of
  is_in-pods_of pair [] = refl
  is_in-pods_of pair (pod ∷ pods) = elim (Option-cases (pair_of_pod key node_map pod)) [
    | inl skipped ↦ rw (skipped, pods_of) (is_in-pods_of pair pods)
    | inr (p, found) ↦ elim (Bool-cases (p == pair)) [
      | inl same ↦
          rw (found, pods_of, same, all_of) (rw (found, is_in, same) (is_in-pods_of pair pods))
      | inr other ↦ rw (found, pods_of, other) (is_in-pods_of pair pods)
    ]
  ]

  is_in-eq : (q pair : TopologyPair) (pod : Pod) → is_in q pod ≡ true → is_in pair pod ≡ q == pair
  unfolding is_in
  is_in-eq q pair pod here = elim (Option-cases (pair_of_pod key node_map pod)) [
    | inl skipped ↦ absurd (cc (rw (skipped, is_in) at here))
    | inr (p, found) ↦
        rw (found, is_in) (ap (λ r. r == pair) ((==_iff p q).0 (rw (found, is_in) at here)))
  ]

  -- Evictions of pods of one pair count for that pair alone.
  evicted-take :
      (q pair : TopologyPair) (n : ℕ) (pods : List Pod)
      → all_of (is_in q) pods ≡ true
      → n ≤ length pods
      → evicted pair (map (eviction_of node_map) (take n pods)) ≡ (if q == pair then n else 0)
  unfolding evicted sum_of all_of
  evicted-take q pair zero pods within h = ground arith
  evicted-take q pair (suc n) [] within h = absurd (omega arith)
  evicted-take q pair (suc n) (pod ∷ pods) within h =
      ground (arith, evicted-take q pair n pods, is_in-eq q pair pod)

-- What the range over the counters relies on: sorting permutes a list, and `range` visits each
-- entry once.
pub record IsFaithful {LabelSelector : Type 0} (env : Environment LabelSelector) : Type 0 where
  pub sort-perm : (pods : List Pod) → Perm (env.sort (less env.name_less) pods) pods
  pub range-lookup :
      (counts : Counts) (pair : TopologyPair) → lookup pair (env.range counts) ≡ lookup pair counts
  pub range-IsMap : (counts : Counts) → IsMap counts → IsMap (env.range counts)

sum_of_one : {A : Type 0} (xs : List A) → sum_of (λ _. 1) xs ≡ length xs
unfolding sum_of
sum_of_one [] = refl
sum_of_one (x ∷ xs) = omega (arith, sum_of_one xs)

length-perm : {A : Type 0} (xs ys : List A) → Perm xs ys → length xs ≡ length ys
length-perm xs ys p = sym (sum_of_one xs) ∙ sum_of-perm (λ _. 1) p ∙ sum_of_one ys

-- The replicas of every value are not negative and fit in an `int32`.
abbrev pub IsCountPolicy : Map String ℤ → Type 0
IsCountPolicy policy = (value : String) → (d : ℕ) × (desired policy value ≡ pos d) × (d < 2 ^ 31)

-- The pods that exceed the replicas `d`, for a pair with a counter.
surplus : Option TopoPairCount → ℕ → ℕ
surplus none d = 0
surplus (some counter) d = length counter.pods - d

module _ {LabelSelector : Type 0} (env : Environment LabelSelector) (faithful : IsFaithful env)
    (key : String) (node_map : Map String Node) (policy : Map String ℤ)
    (wanted : IsCountPolicy policy) where
  -- A counter of pods of the pair.
  record IsGood (pair : TopologyPair) (counter : TopoPairCount) : Type 0 where
    counted : counter.count ≡ pos (length counter.pods)
    small : length counter.pods < 2 ^ 31
    within : all_of (is_in key node_map pair) counter.pods ≡ true

  same_replicas :
      (q pair : TopologyPair) (dq d k : ℕ)
      → desired policy q.value ≡ pos dq
      → desired policy pair.value ≡ pos d
      → (if q == pair then k - dq else 0) ≡ (if q == pair then k - d else 0)
  same_replicas q pair dq d k e e' = elim (Bool-cases (q == pair)) [
    | inr other ↦ rw other
    | inl same ↦
        let w : q ≡ pair = (==_iff q pair).0 same in
        let n : dq ≡ d = ap pos_part (sym e ∙ ap (λ p. desired policy p.value) w ∙ e') in
        rw same (ap (λ j. k - j) n)
  ]

  evicted-nil : (pair : TopologyPair) → evicted key node_map pair [] ≡ 0
  unfolding evicted sum_of
  evicted-nil pair = refl

  surplus-cons :
      (q pair : TopologyPair) (counter : TopoPairCount) (counts : Counts) (d : ℕ)
      → lookup q counts ≡ none
      → (if q == pair then length counter.pods - d else 0) + surplus (lookup pair counts) d
        ≡ surplus (lookup pair ((q, counter) ∷ counts)) d
  unfolding surplus
  surplus-cons q pair counter counts d missing =
      ground (arith, lookup-cons pair q counter counts, ==_iff q pair)

  evict_pair-total :
      (q : TopologyPair) (counter : TopoPairCount)
      → IsGood q counter
      → Returns (evict_pair env node_map policy q counter) λ calls.
        (pair : TopologyPair) (d : ℕ)
        → desired policy pair.value ≡ pos d
        → evicted key node_map pair calls ≡ (if q == pair then length counter.pods - d else 0)
  evict_pair-total q counter good =
      let (dq, e, fits) = wanted q.value in
      let sorts = faithful.sort-perm counter.pods in
      let kept = length-perm _ _ sorts in
      (
        _,
        evict_pair-take env node_map policy q counter
            (record { counted = good.counted; small = good.small; kept = kept }) dq e fits,
        λ pair d asked.
            evicted-take key node_map q pair (length counter.pods - dq) _
              (all_of-perm (is_in key node_map q) sorts ∙ good.within) (rw kept (omega arith))
            ∙ same_replicas q pair dq d (length counter.pods) e asked,
      )

  evict_pairs-total :
      (counts : Counts)
      → IsMap counts
      → ((q : TopologyPair) (counter : TopoPairCount)
          → lookup q counts ≡ some counter
          → IsGood q counter)
      → Returns (evict_pairs env node_map policy counts) λ calls.
        (pair : TopologyPair) (d : ℕ)
        → desired policy pair.value ≡ pos d
        → evicted key node_map pair calls ≡ surplus (lookup pair counts) d
  unfolding evict_pairs IsMap surplus
  evict_pairs-total [] distinct good =
      ([], refl, λ pair d asked. evicted-nil pair ∙ ap (λ o. surplus o d) (sym (lookup-nil pair)))
  evict_pairs-total ((q, counter) ∷ counts) distinct good =
      let (first, run, totals) =
        evict_pair-total q counter (good q counter (rw (lookup-cons, ==_refl q))) in
      let (rest, run', totals') = evict_pairs-total counts distinct.1 λ p c found.
        good p c (ground (arith, lookup-cons p q counter counts, ==_iff q p, distinct.0)) in
      (
        first ++ rest,
        rw run (rw run'),
        λ pair d asked.
            evicted-append key node_map pair first rest
            ∙ ap₂ ◌+◌ (totals pair d asked) (totals' pair d asked)
            ∙ surplus-cons q pair counter counts d distinct.0,
      )

  IsGood-of_list :
      (q : TopologyPair) (counter : TopoPairCount) (ps : List Pod)
      → length ps < 2 ^ 31
      → all_of (is_in key node_map q) ps ≡ true
      → counter_of ps ≡ some counter
      → IsGood q counter
  IsGood-of_list q counter [] small within e = absurd (cc)
  IsGood-of_list q counter (p ∷ ps) small within e =
      let same : record { count = int32 (pos (length (p ∷ ps))); pods = p ∷ ps } ≡ counter = cc e in
      subst (IsGood q) same (record {
        counted = int32_of_IsInt32 (pos (length (p ∷ ps))) (omega arith, omega arith);
        small = small;
        within = within;
      })

  surplus-counter_of : (ps : List Pod) (d : ℕ) → surplus (counter_of ps) d ≡ length ps - d
  unfolding surplus
  surplus-counter_of [] d = omega arith
  surplus-counter_of (p ∷ ps) d = refl

length-pods_of-le :
    (key : String) (node_map : Map String Node) (q : TopologyPair) (pods : List Pod)
    → length (pods_of key node_map q pods) ≤ length pods
unfolding pods_of
length-pods_of-le key node_map q [] = omega arith
length-pods_of-le key node_map q (pod ∷ pods) =
    ground (arith, length-pods_of-le key node_map q pods)

-- For a policy with replicas that are not negative and a listing of fewer than 2 ^ 31 pods, the
-- strategy returns. If the test of `checkTopoReached` holds it evicts nothing; otherwise it evicts
-- from every pair exactly as many pods as exceed the replicas of the pair's value. This holds for
-- every sorting and every order of the counters.
pub deschedule_pods-total :
    {LabelSelector : Type 0} (env : Environment LabelSelector) (node_map : Map String Node)
    (constraint : TopologySchedulingConstraint) (pods : List Pod)
    → IsFaithful env
    → IsCountPolicy constraint.schedule_policy
    → length pods < 2 ^ 31
    → Returns (deschedule_pods env node_map constraint pods) λ calls.
      (pair : TopologyPair) (d : ℕ)
      → desired constraint.schedule_policy pair.value ≡ pos d
      → evicted constraint.topology_key node_map pair calls ≡ (
          if check_topo_reached (count_pods constraint.topology_key node_map pods []) constraint
          then 0
          else length (pods_of constraint.topology_key node_map pair pods) - d)
unfolding deschedule_pods
deschedule_pods-total env node_map constraint pods faithful wanted small =
    let key = constraint.topology_key in
    let counts = count_pods key node_map pods [] in
    elim (Bool-cases (check_topo_reached counts constraint)) [
      | inl reached ↦ (
        [],
        rw reached,
        λ pair d asked.
            rw reached
              (evicted-nil env faithful key node_map constraint.schedule_policy wanted pair),
      )
      | inr unmet ↦
          let (calls, run, totals) =
            evict_pairs-total env faithful key node_map constraint.schedule_policy wanted
              (env.range counts) (faithful.range-IsMap counts (count_pods-IsMap key node_map pods))
              (λ q counter found.
                IsGood-of_list env faithful key node_map constraint.schedule_policy wanted q counter
                  (pods_of key node_map q pods)
                  (omega (arith, length-pods_of-le key node_map q pods))
                  (is_in-pods_of key node_map q pods)
                  (sym (lookup-count_pods key node_map pods q)
                    ∙ sym (faithful.range-lookup counts q)
                    ∙ found)) in
          (
            calls,
            rw unmet run,
            λ pair d asked. rw unmet (
                totals pair d asked
                ∙ ap (λ o. surplus o d)
                    (faithful.range-lookup counts pair ∙ lookup-count_pods key node_map pods pair)
                ∙ surplus-counter_of env faithful key node_map constraint.schedule_policy wanted
                    (pods_of key node_map pair pods) d),
          )
    ]
