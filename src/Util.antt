-- ===== src/Util.antt =====
-- pkg/util: the policy map, node and pod tests, and the chunk size of parallel work.
pub mod Policy
pub mod Parallelism
use super_scheduling.Prelude.{
  Bool, true, false, Option, none, some, List, [], ◌∷◌, String, Map, Result, ok, err, lookup,
  insert, ℤ, ◌==◌, string_eq, if◌then◌else◌,
}
use super_scheduling.Api.Kubernetes.{Node, Pod}
use super_scheduling.Api.Scheduling.{SchedulePolicy}

abbrev pub topology_scheduling_label_key : String
topology_scheduling_label_key = "topology-scheduling-policy.scheduling.sigs.k8s.io"

abbrev pub node_type : String
node_type = "type"

abbrev pub virtual_pod_label : String
virtual_pod_label = "virtual-pod"

abbrev pub virtual_kubelet_label : String
virtual_kubelet_label = "virtual-kubelet"

abbrev pub cluster_id : String
cluster_id = "clusterID"

abbrev pub selector_key : String
selector_key = "clusterSelector"

-- The loop of `CovertPolicy` over the placements, with the map built so far.
covert_policies : List SchedulePolicy → Map String ℤ → Map String ℤ
covert_policies [] policy = policy
covert_policies (p ∷ dp) policy = covert_policies dp (insert p.name p.replicas policy)

unfoldable pub covert_policy : List SchedulePolicy → Map String ℤ
unfolding covert_policies
covert_policy dp = covert_policies dp []

-- A nil node is no virtual node.
unfoldable pub is_virtual_node : Option Node → Bool
is_virtual_node none = false
is_virtual_node (some node) = elim (lookup node_type node.labels) [
  | none ↦ false
  | some val ↦ val == virtual_kubelet_label
]

-- A label that is missing reads as the empty text.
unfoldable pub is_virtual_pod : Pod → Bool
is_virtual_pod pod = elim (lookup virtual_pod_label pod.labels) [
  | none ↦ false
  | some val ↦ val == "true"
]

unfoldable pub get_cluster_id : Option Node → String
get_cluster_id none = ""
get_cluster_id (some node) = elim (lookup cluster_id node.labels) [ none ↦ "" | some name ↦ name ]

-- `unmarshal` is encoding/json's decoder at the type ClustersNodeSelection, here `Selection`.
-- A missing key reads as the empty text.
unfoldable pub convert_annotations :
    {Selection : Type 0}
    → (String → Result Selection)
    → Option (Map String String)
    → Option Selection
convert_annotations unmarshal none = none
convert_annotations unmarshal (some annotation) = elim (lookup selector_key annotation) [
  | none ↦ none
  | some val ↦ if val == "" then none else elim (unmarshal val) [ ok cns ↦ some cns | err e ↦ none ]
]
