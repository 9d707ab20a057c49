-- ===== src/Topology/PreFilter/Matching.antt =====
-- `countPodsMatchSelector`, against the pods of a node that match.
use super_scheduling.Prelude.{
  ℕ, ◌+◌, ◌≡◌, refl, subst, ◌⊎◌, true, Option, none, some, List, [], ◌∷◌, String, ◌==◌, ==_iff,
  string_eq, arith, Option-cases, Bool-cases, inl, inr,
}
use super_scheduling.Api.Kubernetes.{Pod, Selector}
use super_scheduling.Topology.PreFilter.{
  is_some, count_pod, count_pod_infos, count_pods_match_selector,
}

module _ (selector : Selector) (ns : String) where
  -- An entry with a pod of the namespace that is not terminating and matches the selector.
  pub record IsMatching (entry : Option Pod) : Type 0 where
    pub pod : Pod
    pub there : entry ≡ some pod
    pub alive : pod.deletion_timestamp ≡ none
    pub inside : pod.namespace ≡ ns
    pub selected : selector.matches pod.labels ≡ true

  -- The number of matching entries of a list.
  pub data Matching : List (Option Pod) → ℕ → Type 0 where
    no_entries : Matching [] 0
    counted :
        (entry : Option Pod) (entries : List (Option Pod)) (k : ℕ)
        → IsMatching entry
        → Matching entries k
        → Matching (entry ∷ entries) (k + 1)
    passed :
        (entry : Option Pod) (entries : List (Option Pod)) (k : ℕ)
        → ¬ IsMatching entry
        → Matching entries k
        → Matching (entry ∷ entries) k

  count_pod_cases :
      (entry : Option Pod)
      → (IsMatching entry × (count_pod entry selector ns ≡ 1))
        ⊎ ((¬ IsMatching entry) × (count_pod entry selector ns ≡ 0))
  unfolding count_pod is_some
  count_pod_cases none = inr (λ m. cc m.there, refl)
  count_pod_cases (some pod) = elim (Option-cases pod.deletion_timestamp) [
    | inr (t, dying) ↦ inr (
      λ m.
          let same : m.pod ≡ pod = cc m.there in
          let alive = subst (λ (p : Pod). p.deletion_timestamp ≡ none) same m.alive in
          cc (dying, alive),
      ground (arith, dying),
    )
    | inl alive ↦ elim (Bool-cases (pod.namespace == ns)) [
      | inr outside ↦ inr (
        λ m.
            let same : m.pod ≡ pod = cc m.there in
            let inside = subst (λ (p : Pod). p.namespace ≡ ns) same m.inside in
            cc (outside, (==_iff pod.namespace ns).1 inside),
        ground (arith, alive, outside),
      )
      | inl inside ↦ elim (Bool-cases (selector.matches pod.labels)) [
        | inr other ↦ inr (
          λ m.
              let same : m.pod ≡ pod = cc m.there in
              let selected =
                subst (λ (p : Pod). selector.matches p.labels ≡ true) same m.selected in
              cc (other, selected),
          ground (arith, alive, inside, other),
        )
        | inl selected ↦ inl (
          record {
            pod = pod;
            there = refl;
            alive = alive;
            inside = (==_iff pod.namespace ns).0 inside;
            selected = selected;
          },
          ground (arith, alive, inside, selected),
        )
      ]
    ]
  ]

  count_pod_infos-add :
      (entries : List (Option Pod)) (k : ℕ)
      → count_pod_infos entries selector ns k ≡ k + count_pod_infos entries selector ns 0
  unfolding count_pod_infos
  count_pod_infos-add [] k = omega arith
  count_pod_infos-add (entry ∷ entries) k =
      let c = count_pod entry selector ns in
      let both = count_pod_infos-add entries (k + c) in
      let own = count_pod_infos-add entries (0 + c) in omega (arith, both, own)

  -- The loop counts the matching entries.
  pub count_pods-Matching :
      (entries : List (Option Pod))
      → Matching entries (count_pods_match_selector entries selector ns)
  unfolding count_pods_match_selector count_pod_infos
  count_pods-Matching [] = no_entries
  count_pods-Matching (entry ∷ entries) =
      let rest = count_pods-Matching entries in
      let sum = count_pod_infos-add entries (0 + count_pod entry selector ns) in
      elim (count_pod_cases entry) [
        | inl (matching, one) ↦
            subst (Matching (entry ∷ entries)) (omega (arith, sum, one))
              (counted entry entries _ matching rest)
        | inr (other, zero) ↦
            subst (Matching (entry ∷ entries)) (omega (arith, sum, zero))
              (passed entry entries _ other rest)
      ]
