-- ===== src/Descheduler/Strategy/Reached.antt =====
-- `checkTopoReached`: when the strategy leaves a policy's pods alone.
use super_scheduling.Prelude.{
  ℕ, ◌<◌, ◌≡◌, refl, sym, ◌∙◌, ap, ap₂, ◌^◌, ◌↔◌, Bool, true, false, some, [], ◌∷◌, String, Map,
  lookup, lookup-nil, lookup-cons, IsMap, ℤ, pos, ltb_ℤ, ◌≤ℤ◌, ◌-ℤ◌, sub32, sub32_of_IsInt32,
  ltb_sub_iff, IsInt32-sub, ◌==◌, ==_iff, ==_refl, if◌then◌else◌, arith, Bool-cases, inl, inr,
}
use super_scheduling.Api.Scheduling.{TopologyPair, topology_pair_eq, TopologySchedulingConstraint}
use super_scheduling.Descheduler.Strategy.{
  TopoPairCount, Counts, desired, check_topo, check_topo_reached,
}

-- Some replicas are lacking under the pair: `diff > 0`.
abbrev lacking : Map String ℤ → TopologyPair → TopoPairCount → Bool
lacking policy pair counter = ltb_ℤ (pos 0) (sub32 (desired policy pair.value) counter.count)

-- The value of `satisfied` after an iteration.
abbrev satisfied_after : Map String ℤ → TopologyPair → TopoPairCount → Bool → Bool
satisfied_after policy pair counter satisfied =
    if lacking policy pair counter
    then satisfied
    else if ltb_ℤ (sub32 (desired policy pair.value) counter.count) (pos 0)
    then true
    else satisfied

if_true : (b : Bool) → (if b then true else true) ≡ true
if_true true = refl
if_true false = refl

-- Once `notSatisfied` is set the result is false.
check_topo_lacking :
    (counts : Counts) (policy : Map String ℤ) (satisfied : Bool)
    → check_topo counts policy satisfied true ≡ false
unfolding check_topo
check_topo_lacking [] policy true = refl
check_topo_lacking [] policy false = refl
check_topo_lacking ((pair, counter) ∷ counts) policy satisfied =
    ap (check_topo counts policy (satisfied_after policy pair counter satisfied))
      (if_true (lacking policy pair counter))
    ∙ check_topo_lacking counts policy (satisfied_after policy pair counter satisfied)

satisfied_true :
    (policy : Map String ℤ) (pair : TopologyPair) (counter : TopoPairCount)
    → satisfied_after policy pair counter true ≡ true
satisfied_true policy pair counter = ground arith

-- `satisfied` is true from the start, so only `notSatisfied` decides.
check_topo-cons :
    (pair : TopologyPair) (counter : TopoPairCount) (counts : Counts) (policy : Map String ℤ)
    → check_topo ((pair, counter) ∷ counts) policy true false
      ≡ (if lacking policy pair counter then false else check_topo counts policy true false)
unfolding check_topo
check_topo-cons pair counter counts policy =
    ap (λ b. check_topo counts policy b (if lacking policy pair counter then true else false))
      (satisfied_true policy pair counter)
    ∙ elim (Bool-cases (lacking policy pair counter)) [
      | inl under ↦ rw under (check_topo_lacking counts policy true)
      | inr enough ↦ rw enough
    ]

module _ (policy : Map String ℤ) where
  not_lacking :
      (counts : Counts)
      → check_topo counts policy true false ≡ true
      → (pair : TopologyPair) (counter : TopoPairCount) → lookup pair counts ≡ some counter
      → lacking policy pair counter ≡ false
  not_lacking [] e pair counter found = absurd (cc (lookup-nil {V = TopoPairCount} pair))
  not_lacking ((p, c) ∷ counts) e pair counter found =
      let step = check_topo-cons p c counts policy in
      elim (Bool-cases (lacking policy p c)) [
        | inl under ↦ absurd (cc (rw under at step))
        | inr enough ↦ elim (Bool-cases (p == pair)) [
          | inl same ↦
              let q : some c ≡ some counter = sym (lookup-cons pair p c counts ∙ rw same) ∙ found in
              let w : p ≡ pair = (==_iff p pair).0 same in cc (q, w)
          | inr other ↦
              not_lacking counts (sym (rw enough at step) ∙ e) pair counter
                (sym (lookup-cons pair p c counts ∙ rw other) ∙ found)
        ]
      ]

  check_topo_of_all :
      (counts : Counts)
      → IsMap counts
      → ((pair : TopologyPair) (counter : TopoPairCount)
          → lookup pair counts ≡ some counter
          → lacking policy pair counter ≡ false)
      → check_topo counts policy true false ≡ true
  unfolding IsMap check_topo
  check_topo_of_all [] distinct all = refl
  check_topo_of_all ((p, c) ∷ counts) distinct all =
      check_topo-cons p c counts policy
      ∙ rw (all p c (rw (lookup-cons, ==_refl p))) (
          check_topo_of_all counts distinct.1 λ pair counter found.
            all pair counter
              (ground (arith, lookup-cons pair p c counts, ==_iff p pair, distinct.0)))

-- The number is a count that fits in an `int32`.
abbrev pub IsCount : ℤ → Type 0
IsCount z = (n : ℕ) × (z ≡ pos n) × (n < 2 ^ 31)

lacking_iff :
    (policy : Map String ℤ) (pair : TopologyPair) (counter : TopoPairCount)
    → IsCount (desired policy pair.value)
    → IsCount counter.count
    → (lacking policy pair counter ≡ false) ↔ (desired policy pair.value ≤ℤ counter.count)
lacking_iff policy pair counter (a, ea, ba) (b, eb, bb) =
    let exact : sub32 (desired policy pair.value) counter.count ≡ pos a -ℤ pos b =
      ap₂ sub32 ea eb ∙ sub32_of_IsInt32 (pos a) (pos b) (IsInt32-sub a b ba bb) in
    rw (exact, ea, eb) (ltb_sub_iff (pos a) (pos b))

-- The test holds exactly when no counted pair has fewer pods than its value's replicas, where the
-- replicas and the counts are not negative; so it does not depend on the order of the map, and a
-- value under which no pod is counted plays no part in it.
pub check_topo_reached_iff :
    (counts : Counts) (constraint : TopologySchedulingConstraint)
    → IsMap counts
    → ((pair : TopologyPair) (counter : TopoPairCount)
        → lookup pair counts ≡ some counter
        → IsCount (desired constraint.schedule_policy pair.value) × IsCount counter.count)
    → (check_topo_reached counts constraint ≡ true) ↔ (
        (pair : TopologyPair) (counter : TopoPairCount)
        → lookup pair counts ≡ some counter
        → desired constraint.schedule_policy pair.value ≤ℤ counter.count)
unfolding check_topo_reached
check_topo_reached_iff counts constraint distinct fits =
    let policy = constraint.schedule_policy in
    (
      λ e pair counter found.
          (lacking_iff policy pair counter (fits pair counter found).0
              (fits pair counter found).1).0
            (not_lacking policy counts e pair counter found),
      λ all. check_topo_of_all policy counts distinct λ pair counter found.
          (lacking_iff policy pair counter (fits pair counter found).0
              (fits pair counter found).1).1
            (all pair counter found),
    )
