-- ===== src/Topology/Rollout/Step.antt =====
-- One cycle: what Filter sees of the counts, and what the bound pod changes.
use super_scheduling.Prelude.{
  ℕ, ◌+◌, ◌≤◌, ◌<◌, ◌^◌, ◌≡◌, ◌≢◌, sym, ◌∙◌, ap, subst, ◌↔◌, Bool, true, false, Option, some, List,
  String, Map, lookup, ℤ, pos, pos_part, neg_part, int32_of_IsInt32, returns, ◌==◌, string_eq,
  if◌then◌else◌, arith, inl, inr,
}
use super_scheduling.Api.Kubernetes.{NodeInfo, Selector, Functions}
use super_scheduling.Api.Scheduling.{TopologyPair, TopologySchedulingPolicy}
use super_scheduling.Api.Framework.{CycleState, nil}
use super_scheduling.Util.{covert_policy}
use super_scheduling.Util.Policy.{covert_policy-IsMap}
use super_scheduling.Topology.Plugin.{StateData, filter}
use super_scheduling.Topology.Plugin.Filtering.{snapshot_count, filter-pre_filter}
use super_scheduling.Topology.Nodes.Admission.{Has, Admits}
use super_scheduling.Topology.Rollout.{pod_count, IsPlacement, have, Ready, Cycle}
use super_scheduling.Topology.Rollout.Shortfall.{
  shortfall, met_of_shortfall, shortfall_of_met, shortfall-bump,
}
use super_scheduling.Topology.Rollout.Placing.{total-le, total-bind, pod_count-bind}

one_at_most : (b : Bool) → (if b then 1 else 0) ≤ 1
one_at_most true = omega arith
one_at_most false = omega arith

module _ {LabelSelector : Type 0} (k8s : Functions LabelSelector)
    (parallelize : List NodeInfo → List NodeInfo) (cs : CycleState StateData)
    (tsp : TopologySchedulingPolicy LabelSelector) (selector : Selector) (ns : String)
    (placement : IsPlacement (covert_policy tsp.spec.deploy_placement)) where
  abbrev pub policy : Map String ℤ
  policy = covert_policy tsp.spec.deploy_placement

  abbrev pub counts : List NodeInfo → String → ℕ
  counts = have k8s parallelize cs tsp selector ns

  -- The missing replicas of a snapshot.
  abbrev pub gap : List NodeInfo → ℕ
  gap nodes = shortfall (counts nodes) policy

  abbrev pub ReadyFor : List NodeInfo → Type 0
  ReadyFor = Ready k8s parallelize cs tsp selector ns

  abbrev pub CycleFrom : List NodeInfo → List NodeInfo → Type 0
  CycleFrom = Cycle k8s parallelize cs tsp selector ns

  module _ (nodes : List NodeInfo) (ready : ReadyFor nodes) (small : pod_count nodes < 2 ^ 31) where
    abbrev pub seen : String → Option ℤ
    seen = snapshot_count k8s tsp selector ready.pod nodes

    -- Filter sees the counts of the snapshot.
    seen_placed :
        (value : String) (replicas : ℤ)
        → lookup value policy ≡ some replicas
        → seen value ≡ some (pos (counts nodes value))
    seen_placed value replicas found =
        let pair : TopologyPair = record { key = tsp.spec.topology_key; value = value } in
        let at_most = total-le tsp.spec.topology_key selector ns pair nodes in
        rw (ready.fitting value replicas found, ready.namespace)
          (ap some
            (int32_of_IsInt32 (pos (counts nodes value)) (omega (arith, at_most), omega arith)))

    pub Has-iff :
        (value : String) (replicas : ℤ)
        → lookup value policy ≡ some replicas
        → Has seen value replicas ↔ (pos_part replicas ≤ counts nodes value)
    Has-iff value replicas found =
        let (d, is_d, _) = placement value replicas found in
        let now = seen_placed value replicas found in
        (
          λ (c, at_c, enough).
              let same : pos (counts nodes value) ≡ c = cc (now, at_c) in
              omega (
                arith,
                enough,
                ap pos_part same,
                ap neg_part same,
                ap pos_part is_d,
                ap neg_part is_d,
              ),
          λ enough. (
            pos (counts nodes value),
            now,
            omega (arith, enough, ap pos_part is_d, ap neg_part is_d),
          ),
        )

    -- While something is lacking, the values that admit a pod are the placed ones that lack some.
    admits_lem :
        (v : String)
        → gap nodes ≢ 0
        → Admits policy seen v
        → (replicas : ℤ) × (lookup v policy ≡ some replicas) × (counts nodes v < pos_part replicas)
    admits_lem v lacks (inl all) = absurd (
        lacks (
          shortfall_of_met (counts nodes) policy (covert_policy-IsMap tsp.spec.deploy_placement)
            (λ value replicas found. (Has-iff value replicas found).0 (all value replicas found))))
    admits_lem v lacks (inr (replicas, placed, short)) = (
      replicas,
      placed,
      omega (
        arith,
        λ (q : pos_part replicas ≤ counts nodes v). short ((Has-iff v replicas placed).1 q),
      ),
    )

  module _ (nodes nodes' : List NodeInfo) (c : CycleFrom nodes nodes') where
    pub cycle-bump :
        (w : String) → counts nodes' w ≡ counts nodes w + (if c.value == w then 1 else 0)
    cycle-bump w =
        ap (λ ns'. counts ns' w) c.bound
        ∙ total-bind tsp.spec.topology_key selector ns c.ready.pod c.node c.chosen c.value c.there
            c.labelled c.ready.matches c.ready.namespace c.ready.alive c.before c.after w
        ∙ ap (λ ns'. counts ns' w + (if c.value == w then 1 else 0)) (sym c.split)

    pub cycle-grows : pod_count nodes' ≡ pod_count nodes + 1
    cycle-grows =
        ap pod_count c.bound
        ∙ pod_count-bind c.ready.pod c.node c.chosen c.before c.after
        ∙ ap (λ ns'. pod_count ns' + 1) (sym c.split)

    cycle-Admits : Admits policy (snapshot_count k8s tsp selector c.ready.pod nodes) c.value
    cycle-Admits =
        let ready = c.ready in
        let (r, run, (_, decision)) =
          filter-pre_filter k8s parallelize cs ready.plugin ready.state ready.pod tsp nodes selector
            ready.heap c.chosen c.node c.value ready.reads ready.order ready.present ready.cells
            c.there c.labelled ready.matches in
        let same : (nil, c.filtered, c.counted) ≡ r = cc (run, c.pre_filter) in
        decision.0 (
          subst (λ x. filter cs ready.plugin x.1 ready.pod c.chosen x.2 ≡ returns nil) same
            c.admitted)

    -- A cycle while something is lacking fills one gap, at a value that lacked a replica.
    pub cycle-gap :
        pod_count nodes < 2 ^ 31
        → gap nodes ≢ 0
        → (gap nodes ≡ gap nodes' + 1)
          × ((replicas : ℤ) × (lookup c.value policy ≡ some replicas)
              × (counts nodes' c.value ≤ pos_part replicas))
    cycle-gap small lacks =
        let (replicas, placed, short) = admits_lem nodes c.ready small c.value lacks cycle-Admits in
        (
          shortfall-bump (counts nodes) (counts nodes') c.value cycle-bump policy replicas
              (covert_policy-IsMap tsp.spec.deploy_placement) placed short,
          (
            replicas,
            placed,
            omega (arith, short, cycle-bump c.value, one_at_most (c.value == c.value)),
          ),
        )

    -- A gap that is closed stays closed.
    pub cycle-closed : gap nodes ≡ 0 → gap nodes' ≡ 0
    cycle-closed closed =
        shortfall_of_met (counts nodes') policy (covert_policy-IsMap tsp.spec.deploy_placement)
          λ value replicas found. omega (
            arith,
            cycle-bump value,
            met_of_shortfall (counts nodes) policy closed value replicas found,
          )
