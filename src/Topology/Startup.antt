-- ===== src/Topology/Startup.antt =====
-- `New` of pkg/topologyscheduling/topology_scheduling.go: the plugin from its arguments.
use super_scheduling.Prelude.{Bool, not, String, Result, ok, err, message, if◌then◌else◌}
use super_scheduling.Api.Framework.{NodeInfoLister, TopologySchedulingPolicyLister}
use super_scheduling.Config.Internal.{SchedulingArgs}
use super_scheduling.Topology.PreFilter.{TopologyScheduling}

-- What New calls: the decoder of the arguments, the configuration and the client for them, the
-- lister of the informers on the client, and whether its cache is synced once they are started.
pub record PluginFunctions (Args Config Client LabelSelector : Type 0) : Type 0 where
  pub decode_into : Args → Result SchedulingArgs
  pub build_config_from_flags : String → String → Result Config
  pub new_for_config : Config → Result Client
  pub lister : Client → TopologySchedulingPolicyLister LabelSelector
  pub wait_for_cache_sync : Client → Bool

module _ {Args Config Client LabelSelector : Type 0}
    (k8s : PluginFunctions Args Config Client LabelSelector) where
  unfoldable pub new_topology_scheduling :
      Args → NodeInfoLister → Result (TopologyScheduling LabelSelector)
  new_topology_scheduling obj handle = elim (k8s.decode_into obj) [
    | err e ↦ err (message "want args to be of type SchedulingArgs")
    | ok args ↦ elim (k8s.build_config_from_flags args.kube_master args.kube_config_path) [
      | err e ↦ err e
      | ok rest_config ↦ elim (k8s.new_for_config rest_config) [
        | err e ↦ err e
        | ok client ↦
            if not (k8s.wait_for_cache_sync client)
            then err (message "timed out waiting for caches to sync TopologyScheduling")
            else ok
                (record { framework_handle = handle; topology_policy_lister = k8s.lister client })
      ]
    ]
  ]
