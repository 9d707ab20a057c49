-- ===== src/Multicluster/Startup/Started.antt =====
-- The schedulers that `New` starts.
use super_scheduling.Prelude.{
  ◌≡◌, refl, Option, none, some, [], ◌∷◌, String, Map, lookup, insert, lookup-insert, lookup-cons,
  lookup-nil, IsMap, ok, string_eq, ==_iff, arith,
}
use super_scheduling.Config.Internal.{Configuration, SchedulingArgs}
use super_scheduling.Multicluster.Startup.{
  started, Start, Scheduler, Config, start_cluster, start_clusters, new_plugin,
}

module _ {Rate Rest Client Factory Broadcaster Args Sched : Type 0}
    (k8s : Start Rate Rest Client Factory Broadcaster Args Sched)
    (scheduler_of : Configuration → Scheduler (Config k8s) Sched) where
  -- The scheduler of a configured cluster, and else the one that is held.
  abbrev pub scheduler_or :
      Option Configuration
      → Option (Scheduler (Config k8s) Sched)
      → Option (Scheduler (Config k8s) Sched)
  scheduler_or none held = held
  scheduler_or (some config) held = some (scheduler_of config)

  start_clusters-lookup :
      (clusters : Map String Configuration) (acc : Map String (Scheduler (Config k8s) Sched))
      → IsMap clusters
      → ((name : String) (config : Configuration)
          → lookup name clusters ≡ some config
          → start_cluster k8s config ≡ started (scheduler_of config))
      → (r : Map String (Scheduler (Config k8s) Sched)) × (start_clusters k8s clusters acc
          ≡ started r)
        × ((name : String) → lookup name r ≡ scheduler_or (lookup name clusters) (lookup name acc))
  unfolding start_clusters IsMap
  start_clusters-lookup [] acc distinct starts =
      (acc, refl, λ name. ground (arith, lookup-nil {V = Configuration} name))
  start_clusters-lookup ((j, config) ∷ clusters) acc distinct starts =
      let first : start_cluster k8s config ≡ started (scheduler_of config) =
        starts j config (ground (arith, lookup-cons j j config clusters, ==_iff j j)) in
      let (r, run, looks) =
        start_clusters-lookup clusters (insert j (scheduler_of config) acc) distinct.1
          λ name c found.
            starts name c
              (ground (arith, lookup-cons name j config clusters, ==_iff j name, distinct.0)) in
      (
        r,
        rw (first, start_clusters) run,
        λ name. ground (
          arith,
          looks name,
          lookup-cons name j config clusters,
          lookup-insert j name (scheduler_of config) acc,
          ==_iff j name,
          distinct.0,
        ),
      )

  -- Where the arguments decode and the start of every configured cluster succeeds, New returns a
  -- plugin that has a scheduler for exactly the configured clusters, each for its own configuration,
  -- in whatever order the clusters are visited.
  pub new_plugin-lookup :
      (obj : Args) (configs : SchedulingArgs) (clusters : Map String Configuration)
      → k8s.decode_into obj ≡ ok configs
      → configs.cluster_configuration ≡ some clusters
      → IsMap clusters
      → ((name : String) (config : Configuration)
          → lookup name clusters ≡ some config
          → start_cluster k8s config ≡ started (scheduler_of config))
      → (r : Map String (Scheduler (Config k8s) Sched)) × (new_plugin k8s obj ≡ started r)
        × ((name : String) → lookup name r ≡ scheduler_or (lookup name clusters) none)
  unfolding new_plugin
  new_plugin-lookup obj configs clusters decoded configured distinct starts =
      let (r, run, looks) = start_clusters-lookup clusters [] distinct starts in
      (
        r,
        rw (decoded, new_plugin) (rw configured run),
        λ name. ground (arith, looks name, lookup-nil {V = Scheduler (Config k8s) Sched} name),
      )
