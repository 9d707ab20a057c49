-- ===== src/Tests/Clusters.antt =====
-- The theorems about the plugins' arguments and the multicluster plugin, for one cluster.
use super_scheduling.Prelude.{
  ◌↔◌, ◌≡◌, refl, true, none, some, Option, [], ◌∷◌, String, Map, lookup, IsMap, pos, ok, err,
  message, string_eq, ◌==◌, if◌then◌else◌,
}
use super_scheduling.Api.Kubernetes.{Pod, PodPhase, NodeInfo, Node}
use super_scheduling.Config.Internal
use super_scheduling.Config.V1beta1
use super_scheduling.Config.Conversion.{StringConversions}
use super_scheduling.Multicluster.Plugin.{
  ClustersNodeSelection, Scheduler, MultiSchedulingPlugin, multicluster_filter,
}
use super_scheduling.Multicluster.Plugin.Admission.{
  IsFound, succeeds, IsSchedulerOf, IsSelection, multicluster_filter_iff,
}
use super_scheduling.Multicluster.Config.{complete_config}
use super_scheduling.Multicluster.Startup as Startup
use super_scheduling.Multicluster.Startup.Started.{scheduler_or, new_plugin-lookup}
use super_scheduling.Tests.Samples.{pod_on}

abbrev to_text : Option String → String
to_text none = ""
to_text (some s) = s

abbrev conversions : StringConversions
conversions = record { to_string = λ o. ok (to_text o); to_pointer = λ s. ok (some s) }

abbrev east : Internal.Configuration
east = record { name = "east"; kube_master = "https://east"; kube_config = "/east" }

abbrev clusters : Map String Internal.Configuration
clusters = ("east", east) ∷ []

abbrev args : Internal.SchedulingArgs
args = record {
  kube_config_path = "/home";
  kube_master = "";
  cluster_configuration = some clusters;
}

clusters-IsMap : IsMap clusters
clusters-IsMap = unfold IsMap lookup in (refl, tt)

-- A cluster with one node that fits.
abbrev scheduler_east : Scheduler Unit Unit
scheduler_east = record {
  filter = λ _ cns. elim cns.tolerations [
    | [] ↦ err (message "a taint")
    | _ ∷ _ ↦ ok (record { suggested_host = "node-1"; evaluated_nodes = 2; feasible_nodes = 1 })
  ];
}

abbrev plugin : MultiSchedulingPlugin Unit Unit
plugin = record {
  has_snapshot = true;
  schedulers = ("east", scheduler_east) ∷ [];
  unmarshal = λ text.
      if text == "{}"
      then ok (record { node_selector = none; affinity = none; tolerations = tt ∷ [] })
      else err (message "no JSON");
  no_nodes = λ _. "Can not found nodes";
  no_feasible_nodes = λ _ _. "Can not found feasible nodes from cluster";
}

abbrev virtual_node : Node
virtual_node = record {
  name = "vk-east";
  labels = ("type", "virtual-kubelet") ∷ ("clusterID", "east") ∷ [];
}

abbrev virtual_info : NodeInfo
virtual_info = record { node = some virtual_node; pods = [] }

abbrev lone_pod : Pod
lone_pod = record (pod_on "p1" "" PodPhase.pending) {
  annotations = some (("clusterSelector", "{}") ∷ []);
}

multicluster_filter_iff_example :
    (multicluster_filter plugin lone_pod (some virtual_info) ≡ succeeds) ↔ (
      (scheduler : Scheduler Unit Unit) (cns : ClustersNodeSelection Unit Unit)
      → IsSchedulerOf plugin lone_pod virtual_node scheduler
      → IsSelection plugin lone_pod cns
      → IsFound (scheduler.filter lone_pod cns))
multicluster_filter_iff_example =
    multicluster_filter_iff plugin lone_pod virtual_info virtual_node refl refl

-- A rest.Config is its master, a client its user agent, and a scheduler the path of its kubeconfig.
abbrev start : Startup.Start Unit String String String String Unit String
start = record {
  clients = record {
    client_config = λ path master. ok (record {
      accept_content_types = "";
      content_type = "";
      qps = tt;
      burst = pos 0;
      timeout = pos 0;
      user_agent = "";
      rest = master;
    });
    user_agent = λ name. name;
    new_for_config = λ c. ok c.user_agent;
    new_shared_informer_factory = λ c. c;
    new_event_broadcaster_adapter = λ c. c;
    convert_default = ok (record {
      client_connection = record {
        kubeconfig = "";
        accept_content_types = "";
        content_type = "protobuf";
        qps = tt;
        burst = pos 100;
      };
      renew_deadline = pos 10;
      rest = "";
    });
  };
  decode_into = λ _. ok args;
  build_config_from_flags = λ master path. ok (record {
    accept_content_types = "";
    content_type = "";
    qps = tt;
    burst = pos 0;
    timeout = pos 0;
    user_agent = "";
    rest = master;
  });
  zero_rate = tt;
  new_scheduler = λ c. ok c.component_config.client_connection.kubeconfig;
}

abbrev scheduler_of : Internal.Configuration → Startup.Scheduler (Startup.Config start) String
scheduler_of config = record {
  scheduler = config.kube_config;
  config = record {
    component_config = record {
      client_connection = record {
        kubeconfig = config.kube_config;
        accept_content_types = "";
        content_type = "";
        qps = tt;
        burst = pos 0;
      };
      renew_deadline = pos 10;
      rest = "";
    };
    client = some "multicluster";
    informer_factory = some "multicluster";
    event_broadcaster = some "multicluster";
  };
}

starts :
    (config : Internal.Configuration)
    → Startup.start_cluster start config ≡ Startup.started (scheduler_of config)
unfolding Startup.start_cluster complete_config
starts config = refl

new_plugin-lookup_example :
    (r : Map String (Startup.Scheduler (Startup.Config start) String)) × (Startup.new_plugin start
        tt
      ≡ Startup.started r)
    × ((name : String)
        → lookup name r ≡ scheduler_or start scheduler_of (lookup name clusters) none)
new_plugin-lookup_example =
    new_plugin-lookup start scheduler_of tt args clusters refl refl clusters-IsMap
      (λ name config found. starts config)
