-- ===== src/Multicluster/Startup.antt =====
-- `New` of pkg/multicluster/scheduler/scheduler.go and `NewScheduler` of generic.go: one scheduler
-- for each configured cluster.
pub mod Started
use super_scheduling.Prelude.{
  Option, none, some, [], ◌∷◌, String, Map, insert, ℤ, pos, Result, Error, ok, err, message, wrap,
  ◌==◌, string_eq, if◌then◌else◌,
}
use super_scheduling.Config.Conversion.{then_ok}
use super_scheduling.Config.Internal.{Configuration, SchedulingArgs}
use super_scheduling.Multicluster.Config.{RestConfig, SchedulerConfig, Clients, complete_config}

-- The end of New: the plugin, an error, or the exit of the process by klog.Fatal.
pub data Startup {ℓ} (A : Type ℓ) : Type ℓ where
  started : A → Startup A
  failed : Error → Startup A
  exits : Error → Startup A

-- The rest of what New calls of Kubernetes: the decoder of the arguments, `Sched`, the schedulers,
-- with scheduler.New, which takes its client, informers and broadcaster from the configuration,
-- BuildConfigFromFlags, whose result is dropped, and the zero of float32.
pub record Start (Rate Rest Client Factory Broadcaster Args Sched : Type 0) : Type 0 where
  pub clients : Clients Rate Rest Client Factory Broadcaster
  pub decode_into : Args → Result SchedulingArgs
  pub build_config_from_flags : String → String → Result (RestConfig Rate Rest)
  pub zero_rate : Rate
  pub new_scheduler : SchedulerConfig Rate Rest Client Factory Broadcaster → Result Sched

-- A scheduler that runs, with its configuration.
pub record Scheduler (Config Sched : Type 0) : Type 0 where
  pub scheduler : Sched
  pub config : Config

module _ {Rate Rest Client Factory Broadcaster Args Sched : Type 0}
    (k8s : Start Rate Rest Client Factory Broadcaster Args Sched) where
  abbrev pub Config : Type 0
  Config = SchedulerConfig Rate Rest Client Factory Broadcaster

  unfoldable pub create_scheduler : Config → Result (Scheduler Config Sched)
  create_scheduler cc =
      then_ok (k8s.new_scheduler cc) λ sched. ok (record { scheduler = sched; config = cc })

  -- An error here ends the process.
  abbrev pub fatal : {A B : Type 0} → Result A → (A → Startup B) → Startup B
  fatal (err e) next = exits e
  fatal (ok value) next = next value

  -- The body of the loop. The connection has the path of the cluster's kubeconfig, and no other
  -- setting.
  unfoldable pub start_cluster : Configuration → Startup (Scheduler Config Sched)
  unfolding create_scheduler
  start_cluster config = elim (k8s.build_config_from_flags config.kube_master config.kube_config) [
    | err e ↦ failed (wrap "failed to init rest.Config" e)
    | ok _ ↦ fatal k8s.clients.convert_default λ component_config.
        fatal
          (complete_config k8s.clients
            (record {
              component_config = record component_config {
                client_connection = record {
                  kubeconfig = config.kube_config;
                  accept_content_types = "";
                  content_type = "";
                  qps = k8s.zero_rate;
                  burst = pos 0;
                };
              };
              client = none;
              informer_factory = none;
              event_broadcaster = none;
            })
            config.kube_master)
          λ new_config. fatal (create_scheduler new_config) started
  ]

  unfoldable pub start_clusters :
      Map String Configuration
      → Map String (Scheduler Config Sched)
      → Startup (Map String (Scheduler Config Sched))
  unfolding start_cluster
  start_clusters [] schedulers = started schedulers
  start_clusters ((name, config) ∷ clusters) schedulers = elim (start_cluster config) [
    | failed e ↦ failed e
    | exits e ↦ exits e
    | started scheduler ↦ start_clusters clusters (insert name scheduler schedulers)
  ]

  -- A range over a nil map does nothing.
  unfoldable pub new_plugin : Args → Startup (Map String (Scheduler Config Sched))
  unfolding start_clusters
  new_plugin obj = elim (k8s.decode_into obj) [
    | err e ↦ failed (message "want args to be of type SchedulingArgs")
    | ok configs ↦ elim configs.cluster_configuration [
      | none ↦ started []
      | some clusters ↦ start_clusters clusters []
    ]
  ]
