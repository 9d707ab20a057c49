-- ===== src/Descheduler/Strategy/Counting.antt =====
-- What the counting loop of the strategy collects for a pair.
use super_scheduling.Prelude.{
  ℕ, ◌+◌, ◌≡◌, refl, sym, ◌∙◌, ap, ap₂, add32_one, Option, none, some, List, [], ◌∷◌, ◌++◌, String,
  Map, lookup, insert, lookup-insert, lookup-nil, IsMap, insert-IsMap, length, pos, int32, arith,
  ◌==◌, ==_iff, string_eq, if◌then◌else◌, ◌↔◌, Option-cases, Bool-cases, inl, inr,
}
use mathlib.Core.List.{append_assoc, append-nil}
use native.Mathlib.Nat.{add-zero}
use super_scheduling.Api.Kubernetes.{Pod, Node, label_value}
use super_scheduling.Api.Labels.{IsLabelled, label_value_iff}
use super_scheduling.Api.Scheduling.{TopologyPair, topology_pair_eq}
use super_scheduling.Descheduler.Strategy.{
  TopoPairCount, Counts, pair_of_pod, add_to_counter, count_pods,
}

-- The pods that are counted under the pair, in the order of the listing.
unfoldable pub pods_of : String → Map String Node → TopologyPair → List Pod → List Pod
pods_of key node_map pair [] = []
pods_of key node_map pair (pod ∷ pods) =
    let rest = pods_of key node_map pair pods in
    elim (pair_of_pod key node_map pod) [
      | none ↦ rest
      | some p ↦ if p == pair then pod ∷ rest else rest
    ]

-- The counter of a list of pods.
abbrev pub counter_of : List Pod → Option TopoPairCount
counter_of [] = none
counter_of (pod ∷ pods) =
    some (record { count = int32 (pos (length (pod ∷ pods))); pods = pod ∷ pods })

extend : Option TopoPairCount → List Pod → Option TopoPairCount
extend counter [] = counter
extend counter (pod ∷ pods) = extend (some (add_to_counter counter pod)) pods

extend-some :
    (k : ℕ) (before pods : List Pod)
    → extend (some (record { count = int32 (pos k); pods = before })) pods
      ≡ some (record { count = int32 (pos (k + length pods)); pods = before ++ pods })
unfolding extend add_to_counter
extend-some k before [] = rw (append-nil, add-zero)
extend-some k before (pod ∷ pods) =
    ap (λ c. extend (some (record { count = c; pods = before ++ pod ∷ [] })) pods) (add32_one k)
    ∙ extend-some (k + 1) (before ++ pod ∷ []) pods
    ∙ ap₂ (λ c ps. some (record { count = int32 (pos c); pods = ps })) (omega arith)
        (append_assoc before (pod ∷ []) pods)

extend-none : (pods : List Pod) → extend none pods ≡ counter_of pods
unfolding extend add_to_counter int32
extend-none [] = refl
extend-none (pod ∷ pods) =
    extend-some 1 (pod ∷ []) pods
    ∙ ap (λ c. some (record { count = int32 (pos c); pods = pod ∷ pods })) (omega arith)

module _ (key : String) (node_map : Map String Node) where
  module _ (pod : Pod) (pods : List Pod) (p : TopologyPair)
      (found : pair_of_pod key node_map pod ≡ some p) where
    count_pods-counted :
        (counts : Counts)
        → count_pods key node_map (pod ∷ pods) counts
          ≡ count_pods key node_map pods (insert p (add_to_counter (lookup p counts) pod) counts)
    unfolding count_pods
    count_pods-counted counts = rw (found, count_pods)

    pods_of-counted :
        (pair : TopologyPair)
        → pods_of key node_map pair (pod ∷ pods) ≡ (
            if p == pair
            then pod ∷ pods_of key node_map pair pods
            else pods_of key node_map pair pods)
    unfolding pods_of
    pods_of-counted pair = rw (found, pods_of)

    -- One counted pod extends its own pair's counter and leaves the others.
    extend-counted :
        (counts : Counts) (pair : TopologyPair)
        → extend
            (lookup pair (insert p (add_to_counter (lookup p counts) pod) counts))
            (pods_of key node_map pair pods)
          ≡ extend (lookup pair counts) (pods_of key node_map pair (pod ∷ pods))
    unfolding extend
    extend-counted counts pair = elim (Bool-cases (p == pair)) [
      | inl same ↦
          rw (lookup-insert, pods_of-counted pair, same)
            (ap
              (λ q.
                extend (some (add_to_counter (lookup q counts) pod))
                  (pods_of key node_map pair pods))
              ((==_iff p pair).0 same))
      | inr other ↦ rw (lookup-insert, pods_of-counted pair, other)
    ]

  count_pods-extend :
      (pods : List Pod) (counts : Counts) (pair : TopologyPair)
      → lookup pair (count_pods key node_map pods counts)
        ≡ extend (lookup pair counts) (pods_of key node_map pair pods)
  unfolding count_pods extend pods_of
  count_pods-extend [] counts pair = refl
  count_pods-extend (pod ∷ pods) counts pair = elim (Option-cases (pair_of_pod key node_map pod)) [
    | inl skipped ↦ rw (skipped, count_pods, pods_of) (count_pods-extend pods counts pair)
    | inr (p, found) ↦
        ap (lookup pair) (count_pods-counted pod pods p found counts)
        ∙ count_pods-extend pods (insert p (add_to_counter (lookup p counts) pod) counts) pair
        ∙ extend-counted pod pods p found counts pair
  ]

  -- The counter of a pair after the loop.
  pub lookup-count_pods :
      (pods : List Pod) (pair : TopologyPair)
      → lookup pair (count_pods key node_map pods []) ≡ counter_of (pods_of key node_map pair pods)
  lookup-count_pods pods pair =
      count_pods-extend pods [] pair
      ∙ ap (λ o. extend o (pods_of key node_map pair pods)) (lookup-nil pair)
      ∙ extend-none (pods_of key node_map pair pods)

  -- The pod is not terminating, its node is in the map, and the pair is the topology key with the
  -- node's value for it, or the empty text where the node has none.
  pub record IsUnder (pair : TopologyPair) (pod : Pod) : Type 0 where
    pub alive : pod.deletion_timestamp ≡ none
    pub node : Node
    pub known : lookup pod.node_name node_map ≡ some node
    pub same_key : pair.key ≡ key
    pub valued : IsLabelled key node.labels pair.value

  -- The pods of a listing that are under the pair, in its order.
  pub data Collects (pair : TopologyPair) : List Pod → List Pod → Type 0 where
    nothing : Collects pair [] []
    taken :
        (pod : Pod) (pods collected : List Pod)
        → IsUnder pair pod
        → Collects pair pods collected
        → Collects pair (pod ∷ pods) (pod ∷ collected)
    passed :
        (pod : Pod) (pods collected : List Pod)
        → ¬ IsUnder pair pod
        → Collects pair pods collected
        → Collects pair (pod ∷ pods) collected

  pair_of_pod_iff :
      (pair : TopologyPair) (pod : Pod)
      → (pair_of_pod key node_map pod ≡ some pair) ↔ IsUnder pair pod
  unfolding pair_of_pod label_value
  pair_of_pod_iff pair pod = elim (Option-cases pod.deletion_timestamp) [
    | inr (t, dying) ↦
        let made : pair_of_pod key node_map pod ≡ none = rw (dying, pair_of_pod) in
        (λ e. absurd (cc (made, e)), λ under. absurd (cc (dying, under.alive)))
    | inl alive ↦ elim (Option-cases (lookup pod.node_name node_map)) [
      | inl gone ↦
          let made : pair_of_pod key node_map pod ≡ none = rw (alive, pair_of_pod) (rw gone) in
          (λ e. absurd (cc (made, e)), λ under. absurd (cc (gone, under.known)))
      | inr (node, known) ↦
          let made : pair_of_pod key node_map pod
              ≡ some (record { key = key; value = label_value key node.labels }) =
            rw (alive, pair_of_pod) (rw known) in
          (
            λ e.
                let same : record { key = key; value = label_value key node.labels } ≡ pair =
                  cc (made, e) in
                record {
                  alive = alive;
                  node = node;
                  known = known;
                  same_key = sym (ap (λ (p : TopologyPair). p.key) same);
                  valued =
                      (label_value_iff key node.labels pair.value).0
                        (ap (λ (p : TopologyPair). p.value) same);
                },
            λ under.
                let e : under.node ≡ node = cc (known, under.known) in
                made
                ∙ ap₂ (λ k v. some (record { key = k; value = v })) (sym under.same_key)
                    (ap (λ (n : Node). label_value key n.labels) (sym e)
                      ∙ (label_value_iff key under.node.labels pair.value).1 under.valued),
          )
    ]
  ]

  pods_of-Collects :
      (pair : TopologyPair) (pods : List Pod) → Collects pair pods (pods_of key node_map pair pods)
  unfolding pods_of
  pods_of-Collects pair [] = nothing
  pods_of-Collects pair (pod ∷ pods) =
      let rest = pods_of-Collects pair pods in
      elim (Option-cases (pair_of_pod key node_map pod)) [
        | inl skipped ↦
            rw (skipped, pods_of)
              (passed pod pods _ (λ under. cc (skipped, (pair_of_pod_iff pair pod).1 under)) rest)
        | inr (p, found) ↦ elim (Bool-cases (p == pair)) [
          | inl same ↦
              let e : p ≡ pair = (==_iff p pair).0 same in
              rw (found, pods_of)
                (rw same (taken pod pods _ ((pair_of_pod_iff pair pod).0 (found ∙ ap some e)) rest))
          | inr other ↦
              rw (found, pods_of)
                (rw other (
                  passed pod pods _
                    (λ under.
                      let e : p ≡ pair = cc (found, (pair_of_pod_iff pair pod).1 under) in
                      cc (other, (==_iff p pair).1 e))
                    rest))
        ]
      ]

  -- For every pair the loop collects exactly the pods that are not terminating and whose node is
  -- known and has the pair, where a missing label reads as the empty text, in the order of the
  -- listing, and counts them with the wrap-around of `int32`; a pair with no such pod has no counter.
  pub count_pods-Collects :
      (pods : List Pod) (pair : TopologyPair)
      → (collected : List Pod) × Collects pair pods collected
        × (lookup pair (count_pods key node_map pods []) ≡ counter_of collected)
  count_pods-Collects pods pair =
      (pods_of key node_map pair pods, pods_of-Collects pair pods, lookup-count_pods pods pair)

  count_pods-IsMap_from :
      (pods : List Pod) (counts : Counts)
      → IsMap counts
      → IsMap (count_pods key node_map pods counts)
  unfolding count_pods
  count_pods-IsMap_from [] counts distinct = distinct
  count_pods-IsMap_from (pod ∷ pods) counts distinct =
      elim (Option-cases (pair_of_pod key node_map pod)) [
        | inl skipped ↦ rw (skipped, count_pods) (count_pods-IsMap_from pods counts distinct)
        | inr (p, found) ↦
            rw (found, count_pods) (count_pods-IsMap_from pods _ (insert-IsMap p _ counts distinct))
      ]

  pub count_pods-IsMap : (pods : List Pod) → IsMap (count_pods key node_map pods [])
  unfolding IsMap
  count_pods-IsMap pods = count_pods-IsMap_from pods [] tt
