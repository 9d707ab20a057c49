-- ===== src/Tests/Samples.antt =====
-- Two zones with one node each, three pods of an application, and the parameters of the model by
-- concrete functions.
use super_scheduling.Prelude.{
  ◌≡◌, true, false, none, some, List, [], ◌∷◌, String, lookup, pos, Result, ok, err, message, ◌==◌,
  ==_refl, string_eq, if◌then◌else◌,
}
use super_scheduling.Api.Kubernetes.{Pod, PodPhase, Node, NodeInfo, Selector, Functions, Labels}
use super_scheduling.Api.Scheduling.{TopologySchedulingPolicy}
use super_scheduling.Api.Framework.{CycleState, NodeInfoLister}
use super_scheduling.Topology.PreFilter.{TopologyScheduling}
use super_scheduling.Topology.Plugin.{StateData}

abbrev pub pod_labels : Labels
pod_labels =
    ("app", "env") ∷ ("topology-scheduling-policy.scheduling.sigs.k8s.io", "policy-zone") ∷ []

abbrev pub pod_on : String → String → PodPhase → Pod
pod_on name node phase = record {
  name = name;
  namespace = "default";
  labels = pod_labels;
  annotations = none;
  deletion_timestamp = none;
  node_name = node;
  phase = phase;
}

abbrev pub new_pod : Pod
new_pod = pod_on "new" "" PodPhase.pending

abbrev pub node_a : Node
node_a = record { name = "node-a"; labels = ("zone", "a") ∷ [] }

abbrev pub node_b : Node
node_b = record { name = "node-b"; labels = ("zone", "b") ∷ [] }

abbrev pub info_a : NodeInfo
info_a = record {
  node = some node_a;
  pods =
      some (pod_on "p1" "node-a" PodPhase.running)
      ∷ none
      ∷ some (pod_on "p2" "node-a" PodPhase.running)
      ∷ [];
}

abbrev pub info_b : NodeInfo
info_b = record { node = some node_b; pods = [] }

abbrev pub all_nodes : List NodeInfo
all_nodes = info_a ∷ info_b ∷ []

abbrev pub by_app : Selector
by_app = record {
  matches = λ labels. elim (lookup "app" labels) [ none ↦ false | some v ↦ v == "env" ];
}

abbrev pub functions : Functions Unit
functions = record {
  label_selector_as_selector = λ _. ok by_app;
  format_label_selector = λ _. "app=env";
  pod_matches_node_selector_and_affinity_terms = λ _ _. true;
}

abbrev pub policy_zone : TopologySchedulingPolicy Unit
policy_zone = record {
  name = "policy-zone";
  namespace = "default";
  spec = record {
    topology_key = "zone";
    schedule_strategy = "Fill";
    deploy_placement =
        record { name = "a"; replicas = pos 2 } ∷ record { name = "b"; replicas = pos 1 } ∷ [];
    update_placement = [];
    label_selector = none;
  };
  status = record { placement = [] };
}

abbrev pub snapshot_of : List NodeInfo → NodeInfoLister
snapshot_of nodes = record {
  list = ok nodes;
  get = λ name. if name == "node-b" then ok (some info_b) else err (message "not found");
}

abbrev pub plugin_of : List NodeInfo → TopologyScheduling Unit
plugin_of nodes = record {
  framework_handle = snapshot_of nodes;
  topology_policy_lister = record {
    list = λ _ _. ok (policy_zone ∷ []);
    get = λ _ _. ok policy_zone;
  };
}

unfoldable pub write_data :
    (String → Result StateData) → String → StateData → String → Result StateData
write_data s k d j = if j == k then ok d else s j

pub write_data_same :
    (s : String → Result StateData) (k : String) (d : StateData) → write_data s k d k ≡ ok d
unfolding write_data
write_data_same s k d = simp ==_refl

-- A CycleState as a function from keys.
abbrev pub cycle : CycleState StateData
cycle = record {
  State = String → Result StateData;
  read = λ s k. s k;
  write = write_data;
  read-write = write_data_same;
}

abbrev pub empty_state : String → Result StateData
empty_state _ = err (message "not found")
