-- ===== src/Topology/Rollout.antt =====
-- The scheduling of the pods of one policy, one after another: the cycles that the scheduler
-- framework runs around PreFilter and Filter of pkg/topologyscheduling/topology_scheduling.go. The
-- framework binds a pod that Filter lets onto a node, and the next cycle's snapshot has it there.
pub mod Shortfall
pub mod Placing
pub mod Step
pub mod Progress
use super_scheduling.Prelude.{
  ℕ, suc, ◌+◌, ◌<◌, ◌^◌, ◌≡◌, Bool, true, Option, none, some, List, [], ◌∷◌, ◌++◌, String, Map,
  lookup, ℤ, pos, IsInt32, All, length, sum_of, any_of, all_of, returns, string_eq, Perm,
}
use super_scheduling.Api.Kubernetes.{Pod, Node, NodeInfo, Selector, Functions}
use super_scheduling.Api.Scheduling.{TopologyPair, TopologySchedulingPolicy}
use super_scheduling.Api.Framework.{CycleState, nil}
use super_scheduling.Util.{covert_policy}
use super_scheduling.Topology.Counters.{Heap}
use super_scheduling.Topology.PreFilter.{TopologyScheduling}
use super_scheduling.Topology.PreFilter.Counts.{total, is_present, fits_pair}
use super_scheduling.Topology.PreFilter.Calculate.{Reads}
use super_scheduling.Topology.Plugin.{StateData, pre_filter_method, filter}

-- The framework's record of a pod on a node.
abbrev pub bind : Pod → Node → NodeInfo → NodeInfo
bind pod node n = record n { pods = n.pods ++ some (record pod { node_name = node.name }) ∷ [] }

-- All pods on the nodes.
unfoldable pub pod_count : List NodeInfo → ℕ
pod_count = sum_of (λ n. length n.pods)

-- The replicas are not negative and fit in an `int32`.
abbrev pub IsPlacement : Map String ℤ → Type 0
IsPlacement policy =
    (value : String) (replicas : ℤ)
    → lookup value policy ≡ some replicas
    → (d : ℕ) × (replicas ≡ pos d) × (d < 2 ^ 31)

module _ {LabelSelector : Type 0} (k8s : Functions LabelSelector)
    (parallelize : List NodeInfo → List NodeInfo) (cs : CycleState StateData)
    (tsp : TopologySchedulingPolicy LabelSelector) (selector : Selector) (ns : String) where
  -- The matching pods on the nodes with a value of the policy's key.
  abbrev pub have : List NodeInfo → String → ℕ
  have nodes value =
      total tsp.spec.topology_key selector ns
        (record { key = tsp.spec.topology_key; value = value }) nodes

  -- A snapshot and a pod of the policy that is to be scheduled: the plugin's reads succeed, no node
  -- is nil, the pod matches the selector, and every placed value has a node that fits the pod.
  pub record Ready (nodes : List NodeInfo) : Type 0 where
    pub plugin : TopologyScheduling LabelSelector
    pub state : cs.State
    pub heap : Heap
    pub pod : Pod
    pub reads : Reads k8s parallelize plugin pod tsp nodes selector
    pub order : Perm (parallelize nodes) nodes
    pub present : all_of is_present nodes ≡ true
    pub cells : All IsInt32 heap
    pub matches : selector.matches pod.labels ≡ true
    pub namespace : pod.namespace ≡ ns
    pub alive : pod.deletion_timestamp ≡ none
    pub fitting :
        (value : String) (replicas : ℤ)
        → lookup value (covert_policy tsp.spec.deploy_placement) ≡ some replicas
        → any_of
            (fits_pair k8s tsp.spec.topology_key pod
              (record { key = tsp.spec.topology_key; value = value }))
            nodes
          ≡ true

  -- One cycle on a snapshot that is ready: PreFilter succeeds, Filter lets the pod onto a labelled node, and the pod is bound
  -- to the node.
  pub record Cycle (nodes nodes' : List NodeInfo) : Type 0 where
    pub ready : Ready nodes
    pub before : List NodeInfo
    pub chosen : NodeInfo
    pub after : List NodeInfo
    pub node : Node
    pub value : String
    pub split : nodes ≡ before ++ chosen ∷ after
    pub there : chosen.node ≡ some node
    pub labelled : lookup tsp.spec.topology_key node.labels ≡ some value
    pub filtered : cs.State
    pub counted : Heap
    pub pre_filter :
        pre_filter_method cs k8s parallelize ready.plugin ready.state ready.pod ready.heap
        ≡ returns (nil, filtered, counted)
    pub admitted : filter cs ready.plugin filtered ready.pod chosen counted ≡ returns nil
    pub bound : nodes' ≡ before ++ bind ready.pod node chosen ∷ after

  -- `n` cycles, one after another.
  pub data Cycles : ℕ → List NodeInfo → List NodeInfo → Type 0 where
    idle : (nodes : List NodeInfo) → Cycles 0 nodes nodes
    next :
        (n : ℕ) (nodes nodes' nodes'' : List NodeInfo)
        → Cycles n nodes nodes'
        → Cycle nodes' nodes''
        → Cycles (suc n) nodes nodes''
