-- ===== src/Multicluster/Config.antt =====
-- pkg/multicluster/config/config.go: the clients of a cluster's scheduler.
use super_scheduling.Prelude.{Option, some, String, ℤ, Result, ok}
use super_scheduling.Config.Conversion.{then_ok}

-- componentbaseconfig.ClientConnectionConfiguration; `Rate` is float32.
pub record ClientConnectionConfiguration (Rate : Type 0) : Type 0 where
  pub kubeconfig : String
  pub accept_content_types : String
  pub content_type : String
  pub qps : Rate
  pub burst : ℤ

-- restclient.Config with the fields that are set; `Rest` is what else it holds.
pub record RestConfig (Rate Rest : Type 0) : Type 0 where
  pub accept_content_types : String
  pub content_type : String
  pub qps : Rate
  pub burst : ℤ
  pub timeout : ℤ
  pub user_agent : String
  pub rest : Rest

-- KubeSchedulerConfiguration with the two fields that are read; `Rest` is what else it holds.
pub record ComponentConfig (Rate Rest : Type 0) : Type 0 where
  pub client_connection : ClientConnectionConfiguration Rate
  pub renew_deadline : ℤ
  pub rest : Rest

-- schedulerappconfig.Config; nil fields are none.
pub record SchedulerConfig (Rate Rest Client Factory Broadcaster : Type 0) : Type 0 where
  pub component_config : ComponentConfig Rate Rest
  pub client : Option Client
  pub informer_factory : Option Factory
  pub event_broadcaster : Option Broadcaster

-- What the file calls of Kubernetes: the loading of the configuration for a path and a master, the
-- text that AddUserAgent sets, clients, informers, the broadcaster, and the schemes' defaults and
-- conversion, which make the default component configuration.
pub record Clients (Rate Rest Client Factory Broadcaster : Type 0) : Type 0 where
  pub client_config : String → String → Result (RestConfig Rate Rest)
  pub user_agent : String → String
  pub new_for_config : RestConfig Rate Rest → Result Client
  pub new_shared_informer_factory : Client → Factory
  pub new_event_broadcaster_adapter : Client → Broadcaster
  pub convert_default : Result (ComponentConfig Rate Rest)

module _ {Rate Rest Client Factory Broadcaster : Type 0}
    (k8s : Clients Rate Rest Client Factory Broadcaster) where
  -- AddUserAgent changes the configuration that it is given.
  unfoldable pub add_user_agent : RestConfig Rate Rest → String → RestConfig Rate Rest
  add_user_agent config name = record config { user_agent = k8s.user_agent name }

  -- The settings of the connection, on the loaded configuration.
  unfoldable pub connect :
      ClientConnectionConfiguration Rate → RestConfig Rate Rest → RestConfig Rate Rest
  connect config loaded = record loaded {
    accept_content_types = config.accept_content_types;
    content_type = config.content_type;
    qps = config.qps;
    burst = config.burst;
  }

  unfoldable pub create_clients :
      ClientConnectionConfiguration Rate → String → ℤ → Result (Client × Client × Client)
  unfolding add_user_agent connect
  create_clients config master_override timeout =
      then_ok (k8s.client_config config.kubeconfig master_override) λ loaded.
        let kube_config = add_user_agent (connect config loaded) "multicluster" in
        then_ok (k8s.new_for_config kube_config) λ client.
          let rest_config =
            add_user_agent (record kube_config { timeout = timeout }) "leader-election" in
          then_ok (k8s.new_for_config rest_config) λ leader_election_client.
            then_ok (k8s.new_for_config kube_config)
              λ event_client. ok (client, leader_election_client, event_client)

  unfoldable pub complete_config :
      SchedulerConfig Rate Rest Client Factory Broadcaster
      → String
      → Result (SchedulerConfig Rate Rest Client Factory Broadcaster)
  unfolding create_clients
  complete_config c master =
      then_ok
        (create_clients c.component_config.client_connection master
          c.component_config.renew_deadline)
        λ (client, _, event_client). ok (record c {
          client = some client;
          informer_factory = some (k8s.new_shared_informer_factory client);
          event_broadcaster = some (k8s.new_event_broadcaster_adapter event_client);
        })
