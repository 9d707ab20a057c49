-- ===== src/Multicluster/Plugin.antt =====
-- pkg/multicluster/scheduler/scheduler.go: the plugin's Filter.
pub mod Admission
use super_scheduling.Prelude.{
  ℕ, Bool, not, ◌||◌, Option, none, some, List, [], ◌∷◌, String, Map, lookup, Result, Error, ok,
  err, nat_beq, ◌==◌, string_eq, if◌then◌else◌,
}
use super_scheduling.Api.Kubernetes.{Pod, NodeInfo, Node}
use super_scheduling.Api.Framework.{Status, new_status, success, unschedulable}
use super_scheduling.Util.{is_virtual_node, get_cluster_id, convert_annotations}

-- The part of a pod's spec that Filter replaces, which is also the content of the annotation;
-- `Affinity` and `Toleration` are types of Kubernetes. A nil map or pointer is none.
pub record ClustersNodeSelection (Affinity Toleration : Type 0) : Type 0 where
  pub node_selector : Option (Map String String)
  pub affinity : Option Affinity
  pub tolerations : List Toleration

pub record ScheduleResult : Type 0 where
  pub suggested_host : String
  pub evaluated_nodes : ℕ
  pub feasible_nodes : ℕ

-- A cluster's scheduler: `Algorithm.Filter` with its profile "default-scheduler", of the copied pod
-- and of the part of its spec that was replaced.
pub record Scheduler (Affinity Toleration : Type 0) : Type 0 where
  pub filter : Pod → ClustersNodeSelection Affinity Toleration → Result ScheduleResult

-- The plugin, with what it calls: the test of the snapshot for nil, the decoder of the annotation,
-- and the texts of its two refusals by fmt.Sprintf.
pub record MultiSchedulingPlugin (Affinity Toleration : Type 0) : Type 0 where
  pub has_snapshot : Bool
  pub schedulers : Map String (Scheduler Affinity Toleration)
  pub unmarshal : String → Result (ClustersNodeSelection Affinity Toleration)
  pub no_nodes : Error → String
  pub no_feasible_nodes : ℕ → ℕ → String

module _ {Affinity Toleration : Type 0} (m : MultiSchedulingPlugin Affinity Toleration) where
  -- The selector, affinity and tolerations of the copied pod: those of the annotation, or none.
  unfoldable pub select : Pod → ClustersNodeSelection Affinity Toleration
  select pod = elim (convert_annotations m.unmarshal pod.annotations) [
    | some cns ↦ cns
    | none ↦ record { node_selector = none; affinity = none; tolerations = [] }
  ]

  unfoldable pub filter_result : Result ScheduleResult → Status
  filter_result (err e) = new_status unschedulable (m.no_nodes e ∷ [])
  filter_result (ok result) =
      if nat_beq result.feasible_nodes 0 || result.suggested_host == ""
      then new_status unschedulable
          (m.no_feasible_nodes result.feasible_nodes result.evaluated_nodes ∷ [])
      else new_status success ("" ∷ [])

  unfoldable pub filter_cluster : Pod → Node → Status
  unfolding filter_result
  filter_cluster pod node =
      let scheduler_name = get_cluster_id (some node) in
      if not (is_virtual_node (some node))
      then new_status success ("" ∷ [])
      else if scheduler_name == ""
      then new_status success ("" ∷ [])
      else elim (lookup scheduler_name m.schedulers) [
        | none ↦ new_status success ("" ∷ [])
        | some scheduler ↦ filter_result (scheduler.filter pod (select pod))
      ]

  -- `nodeInfo == nil || nodeInfo.Node() == nil`
  unfoldable pub filter_info : Pod → Option NodeInfo → Status
  unfolding filter_cluster
  filter_info pod none = new_status unschedulable ("node not exit" ∷ [])
  filter_info pod (some node_info) = elim node_info.node [
    | none ↦ new_status unschedulable ("node not exit" ∷ [])
    | some node ↦ filter_cluster pod node
  ]

  unfoldable pub multicluster_filter : Pod → Option NodeInfo → Status
  unfolding filter_info
  multicluster_filter pod node_info =
      if not m.has_snapshot then new_status success ("" ∷ []) else filter_info pod node_info
