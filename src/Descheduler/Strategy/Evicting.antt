-- ===== src/Descheduler/Strategy/Evicting.antt =====
-- Which pods the strategy evicts, and how many.
use super_scheduling.Prelude.{
  ℕ, zero, suc, ◌+◌, ◌-◌, ◌^◌, ◌≤◌, ◌<◌, ◌≡◌, refl, ◌∙◌, ap, ap₂, true, false, List, [], ◌∷◌, map,
  String, Map, lookup, length, take, ℤ, pos, negsuc, ltb_ℤ, sub32, sub32_le, sub32_lt, sub32_neg,
  sub32_negsuc, returns, panics, string_eq, leb, arith, Bool-cases, inl, inr,
}
use super_scheduling.Api.Kubernetes.{Pod, Node}
use super_scheduling.Api.Scheduling.{TopologyPair, topology_pair_eq}
use super_scheduling.Descheduler.Strategy.{
  TopoPairCount, desired, less, Eviction, evict_first, Environment, evict_pair,
}

abbrev pub eviction_of : Map String Node → Pod → Eviction
eviction_of node_map pod = record {
  pod = pod;
  node = lookup pod.node_name node_map;
  reason = "Exceeded the policy desired";
}

evict_first-take :
    (node_map : Map String Node) (n : ℕ) (pods : List Pod)
    → n ≤ length pods
    → evict_first node_map n pods ≡ returns (map (eviction_of node_map) (take n pods))
unfolding evict_first
evict_first-take node_map zero pods h = refl
evict_first-take node_map (suc n) [] h = absurd (omega arith)
evict_first-take node_map (suc n) (pod ∷ pods) h =
    rw (evict_first-take node_map n pods (omega arith))

evict_first-panics :
    (node_map : Map String Node) (n : ℕ) (pods : List Pod)
    → length pods < n
    → evict_first node_map n pods ≡ panics
unfolding evict_first
evict_first-panics node_map zero pods h = absurd (omega arith)
evict_first-panics node_map (suc n) [] h = refl
evict_first-panics node_map (suc n) (pod ∷ pods) h =
    rw (evict_first-panics node_map n pods (omega arith))

no_excess : (k d : ℕ) → k ≤ d → 0 ≡ k - d
no_excess k d within = omega arith

small_excess : (k d : ℕ) → k < 2 ^ 31 → d < k → k - d - 1 + 1 < 2 ^ 31
small_excess k d h more = omega arith

exact_excess : (k d : ℕ) → d < k → k - d - 1 + 1 ≡ k - d
exact_excess k d more = omega arith

module _ {LabelSelector : Type 0} (env : Environment LabelSelector) (node_map : Map String Node)
    (policy : Map String ℤ) where
  abbrev sorted : TopoPairCount → List Pod
  sorted counter = env.sort (less env.name_less) counter.pods

  -- A counter that counts its pods, whose number fits in an `int32`, and which sorting keeps.
  pub record IsCounter (counter : TopoPairCount) : Type 0 where
    pub counted : counter.count ≡ pos (length counter.pods)
    pub small : length counter.pods < 2 ^ 31
    pub kept : length (sorted counter) ≡ length counter.pods

  module _ (pair : TopologyPair) (counter : TopoPairCount) (valid : IsCounter counter) where
    evict_pair_at :
        (diff : ℤ) (n : ℕ)
        → sub32 (desired policy pair.value) counter.count ≡ diff
        → ltb_ℤ diff (pos 0) ≡ true
        → sub32 (pos 0) diff ≡ pos n
        → evict_pair env node_map policy pair counter ≡ evict_first node_map n (sorted counter)
    unfolding evict_pair
    evict_pair_at diff n exact below minus = rw (exact, evict_pair, below, minus)

    evict_pair_none :
        (diff : ℤ)
        → sub32 (desired policy pair.value) counter.count ≡ diff
        → ltb_ℤ diff (pos 0) ≡ false
        → evict_pair env node_map policy pair counter ≡ returns []
    unfolding evict_pair
    evict_pair_none diff exact enough = rw (exact, evict_pair, enough)

    -- Where the replicas are not negative, the pods of the sorted list that exceed them are evicted,
    -- from its start on, and there is no panic.
    pub evict_pair-take :
        (d : ℕ)
        → desired policy pair.value ≡ pos d
        → d < 2 ^ 31
        → evict_pair env node_map policy pair counter
          ≡ returns (map (eviction_of node_map) (take (length counter.pods - d) (sorted counter)))
    evict_pair-take d wanted small =
        let k = length counter.pods in
        let diff = ap₂ sub32 wanted valid.counted in
        elim (Bool-cases (leb k d)) [
          | inl within ↦
              let inside : k ≤ d = ground arith in
              evict_pair_none (pos (d - k)) (diff ∙ sub32_le d k small valid.small (ground arith))
                (ground arith)
              ∙ ap (λ n. returns (map (eviction_of node_map) (take n (sorted counter))))
                  (no_excess k d inside)
          | inr over ↦
              let more : d < k = ground arith in
              evict_pair_at (negsuc (k - d - 1)) (k - d - 1 + 1)
                (diff ∙ sub32_lt d k small valid.small more) (ground arith)
                (sub32_neg (k - d - 1) (small_excess k d valid.small more))
              ∙ ap (λ n. evict_first node_map n (sorted counter)) (exact_excess k d more)
              ∙ evict_first-take node_map (k - d) (sorted counter) (rw valid.kept (omega arith))
        ]

    -- Where the replicas are negative and their size, added to the number of the pair's pods, is
    -- below 2 ^ 31, the eviction of the pair runs past the end of the list and panics.
    pub evict_pair-panics :
        (m : ℕ)
        → desired policy pair.value ≡ negsuc m
        → length counter.pods + m + 1 < 2 ^ 31
        → evict_pair env node_map policy pair counter ≡ panics
    unfolding sub32
    evict_pair-panics m wanted small =
        let k = length counter.pods in
        evict_pair_at (negsuc (m + k)) (m + k + 1)
          (ap₂ sub32 wanted valid.counted ∙ sub32_negsuc m k (omega arith)) (ground arith)
          (sub32_neg (m + k) (omega arith))
        ∙ evict_first-panics node_map (m + k + 1) (sorted counter) (rw valid.kept (omega arith))
