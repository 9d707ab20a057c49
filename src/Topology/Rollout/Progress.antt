-- ===== src/Topology/Rollout/Progress.antt =====
-- How the cycles of a policy's pods fill its values, where every placed value has a node that fits
-- each of the pods.
use native.Mathlib.Decide.{dec_lt}
use super_scheduling.Prelude.{
  ℕ, ◌+◌, ◌-◌, ◌≤◌, ◌<◌, ◌^◌, ◌≡◌, ◌≢◌, refl, ◌∙◌, ap, subst, Bool, true, some, List, [], ◌∷◌, ◌++◌,
  String, Map, lookup, ℤ, pos_part, any_of, returns, ◌==◌, ==_iff, string_eq, arith, Bool-cases,
  Option-cases, inl, inr,
}
use super_scheduling.Api.Kubernetes.{Pod, Node, NodeInfo, Selector, Functions}
use super_scheduling.Api.Scheduling.{TopologySchedulingPolicy}
use super_scheduling.Api.Framework.{CycleState}
use super_scheduling.Util.{covert_policy}
use super_scheduling.Util.Policy.{covert_policy-IsMap}
use super_scheduling.Topology.PreFilter.Counts.{fits_pair}
use super_scheduling.Topology.Plugin.{StateData}
use super_scheduling.Topology.Plugin.Filtering.{filter-pre_filter}
use super_scheduling.Topology.Nodes.Admission.{Has}
use super_scheduling.Topology.Rollout.{
  bind, pod_count, IsPlacement, have, Ready, Cycle, Cycles, idle, next,
}
use super_scheduling.Topology.Rollout.Step.{
  gap, seen, Has-iff, cycle-bump, cycle-grows, cycle-gap, cycle-closed,
}
use super_scheduling.Topology.Rollout.Shortfall.{met_of_shortfall, lacking}

any_of_split {ℓ} :
    {A : Type ℓ} (p : A → Bool) (xs : List A)
    → any_of p xs ≡ true
    → (before : List A) × (x : A) × (after : List A) × (xs ≡ before ++ x ∷ after) × (p x ≡ true)
unfolding any_of
any_of_split p [] e = absurd (cc e)
any_of_split p (x ∷ xs) e = elim (Bool-cases (p x)) [
  | inl here ↦ ([], x, xs, refl, here)
  | inr elsewhere ↦
      let (before, y, after, split, there) = any_of_split p xs (rw elsewhere at e) in
      (x ∷ before, y, after, ap (◌∷◌ x) split, there)
]

fits_pair_inv :
    {LabelSelector : Type 0} (k8s : Functions LabelSelector) (key : String) (pod : Pod)
    (value : String) (n : NodeInfo)
    → fits_pair k8s key pod (record { key = key; value = value }) n ≡ true
    → (node : Node) × (n.node ≡ some node) × (lookup key node.labels ≡ some value)
unfolding fits_pair
fits_pair_inv k8s key pod value n fits = elim (Option-cases n.node) [
  | inl missing ↦ absurd (cc (rw (missing, fits_pair) at fits))
  | inr (node, there) ↦ elim (Option-cases (lookup key node.labels)) [
    | inl missing ↦ absurd (ground (arith, there, missing, fits))
    | inr (v, found) ↦ (node, there, ground (arith, there, found, fits, ==_iff v value))
  ]
]

module _ {LabelSelector : Type 0} (k8s : Functions LabelSelector)
    (parallelize : List NodeInfo → List NodeInfo) (cs : CycleState StateData)
    (tsp : TopologySchedulingPolicy LabelSelector) (selector : Selector) (ns : String)
    (placement : IsPlacement (covert_policy tsp.spec.deploy_placement)) where
  abbrev policy : Map String ℤ
  policy = covert_policy tsp.spec.deploy_placement

  abbrev counts : List NodeInfo → String → ℕ
  counts = have k8s parallelize cs tsp selector ns

  abbrev missing : List NodeInfo → ℕ
  missing nodes = gap k8s parallelize cs tsp selector ns placement nodes

  abbrev CyclesFrom : ℕ → List NodeInfo → List NodeInfo → Type 0
  CyclesFrom = Cycles k8s parallelize cs tsp selector ns

  cycles-grow :
      (n : ℕ) (nodes nodes' : List NodeInfo)
      → CyclesFrom n nodes nodes'
      → pod_count nodes' ≡ pod_count nodes + n
  cycles-grow _ nodes _ (idle _) = omega arith
  cycles-grow _ nodes _ (next n _ nodes' nodes'' cycles c) = omega (
    arith,
    cycles-grow n nodes nodes' cycles,
    cycle-grows k8s parallelize cs tsp selector ns placement nodes' nodes'' c,
  )

  cycles-gap :
      (n : ℕ) (nodes nodes' : List NodeInfo)
      → CyclesFrom n nodes nodes'
      → pod_count nodes + n ≤ 2 ^ 31
      → missing nodes' ≡ missing nodes - n
  cycles-gap _ nodes _ (idle _) small = omega arith
  cycles-gap _ nodes _ (next n _ nodes' nodes'' cycles c) small =
      let so_far = cycles-gap n nodes nodes' cycles (omega (arith, small)) in
      let grown = cycles-grow n nodes nodes' cycles in
      elim (dec_lt 0 (missing nodes')) [
        | yes open_gap ↦
            let (fills, _) =
              cycle-gap k8s parallelize cs tsp selector ns placement nodes' nodes'' c
                (omega (arith, grown, small)) (λ q. omega (arith, q, open_gap)) in
            omega (arith, so_far, fills)
        | no none_left ↦ omega (
          arith,
          so_far,
          none_left,
          cycle-closed k8s parallelize cs tsp selector ns placement nodes' nodes'' c
              (omega (arith, none_left)),
        )
      ]

  -- For a policy with replicas that fit in an int32 and are not negative, and cycles that each start
  -- on a snapshot with the plugin's inputs in order and, for every placed value, a node that fits
  -- the cycle's pod: after at least as many cycles as replicas were missing at the start, which
  -- leave at most 2 ^ 31 pods, every placed value has at least its replicas.
  pub cycles-reach :
      (n : ℕ) (nodes nodes' : List NodeInfo)
      → CyclesFrom n nodes nodes'
      → pod_count nodes + n ≤ 2 ^ 31
      → missing nodes ≤ n
      → (value : String) (replicas : ℤ) → lookup value policy ≡ some replicas
      → pos_part replicas ≤ counts nodes' value
  cycles-reach n nodes nodes' cycles small enough =
      met_of_shortfall (counts nodes') policy
        (omega (arith, cycles-gap n nodes nodes' cycles small, enough))

  -- For a policy with replicas that fit in an int32 and are not negative, and cycles that each start
  -- on a snapshot with the plugin's inputs in order and, for every placed value, a node that fits
  -- the cycle's pod: in no more cycles than replicas are missing at the start, which leave at most
  -- 2 ^ 31 pods, no value that was within its replicas runs past them.
  pub cycles-within :
      (n : ℕ) (nodes nodes' : List NodeInfo)
      → CyclesFrom n nodes nodes'
      → pod_count nodes + n ≤ 2 ^ 31
      → n ≤ missing nodes
      → (value : String) (replicas : ℤ) → lookup value policy ≡ some replicas
      → counts nodes value ≤ pos_part replicas
      → counts nodes' value ≤ pos_part replicas
  cycles-within _ nodes _ (idle _) small few value replicas found within = within
  cycles-within _ nodes _ (next n _ nodes' nodes'' cycles c) small few value replicas found within =
      let ih =
        cycles-within n nodes nodes' cycles (omega (arith, small)) (omega (arith, few)) value
          replicas found within in
      let so_far = cycles-gap n nodes nodes' cycles (omega (arith, small)) in
      let grown = cycles-grow n nodes nodes' cycles in
      let (_, (r, placed, at_most)) =
        cycle-gap k8s parallelize cs tsp selector ns placement nodes' nodes'' c
          (omega (arith, grown, small)) (λ q. omega (arith, q, so_far, few)) in
      elim (Bool-cases (c.value == value)) [
        | inl same ↦
            let e : c.value ≡ value = (==_iff c.value value).0 same in
            let w : r ≡ replicas = cc (subst (λ x. lookup x policy ≡ some r) e placed, found) in
            omega (arith, at_most, ap (counts nodes'') e, ap pos_part w)
        | inr other ↦
            let same_count : counts nodes'' value ≡ counts nodes' value + 0 =
              cycle-bump k8s parallelize cs tsp selector ns placement nodes' nodes'' c value
              ∙ rw other refl in
            omega (arith, ih, same_count)
      ]

  -- While replicas are missing, the next pod has a node: for some node of the snapshot PreFilter
  -- and Filter let the pod onto it.
  pub next-Cycle :
      (nodes : List NodeInfo)
      → Ready k8s parallelize cs tsp selector ns nodes
      → pod_count nodes < 2 ^ 31
      → missing nodes ≢ 0
      → (nodes' : List NodeInfo) × Cycle k8s parallelize cs tsp selector ns nodes nodes'
  next-Cycle nodes ready small lacks =
      let (value, replicas, found, short) =
        lacking (counts nodes) policy (covert_policy-IsMap tsp.spec.deploy_placement) lacks in
      let (before, n, after, split, fits) =
        any_of_split _ nodes (ready.fitting value replicas found) in
      let (node, there, labelled) =
        fits_pair_inv k8s tsp.spec.topology_key ready.pod value n fits in
      let (r, run, (ok_status, decision)) =
        filter-pre_filter k8s parallelize cs ready.plugin ready.state ready.pod tsp nodes selector
          ready.heap n node value ready.reads ready.order ready.present ready.cells there labelled
          ready.matches in
      let lacks_here : ¬ Has (seen k8s parallelize cs tsp selector ns placement nodes ready small)
          value replicas =
        λ has. omega (
          arith,
          short,
          (Has-iff k8s parallelize cs tsp selector ns placement nodes ready small value replicas
                found).0
              has,
        ) in
      (
        before ++ bind ready.pod node n ∷ after,
        record {
          ready = ready;
          before = before;
          chosen = n;
          after = after;
          node = node;
          value = value;
          split = split;
          there = there;
          labelled = labelled;
          filtered = r.1;
          counted = r.2;
          pre_filter = run ∙ ap (λ s. returns (s, r.1, r.2)) ok_status;
          admitted = decision.1 (inr (replicas, found, lacks_here));
          bound = refl;
        },
      )
