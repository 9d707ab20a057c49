-- ===== src/Client/Clientset.antt =====
-- clientset.go and typed/scheduling/v1alpha1/scheduling_client.go in
-- pkg/generated/clientset/versioned: how the clients are made from a configuration.
pub mod Made
use super_scheduling.Prelude.{
  Bool, true, Option, none, some, String, ℤ, pos, ltb_ℤ, message, Result, ok, err, Run, returns,
  panics, ◌==◌, string_eq, if◌then◌else◌, ◌>>=◌, ◌≡◌, refl, sym, ap, ◌∙◌, Result-cases, Bool-cases,
  Option-cases, inl, inr,
}

-- The fields of rest.Config that are read or set. `Rate` is float32, and `Rest` is what else it
-- holds.
pub record RestConfig (Rate RateLimiter Serializer Rest : Type 0) : Type 0 where
  pub group_version : Option (String × String)
  pub api_path : String
  pub negotiated_serializer : Option Serializer
  pub user_agent : String
  pub rate_limiter : Option RateLimiter
  pub qps : Rate
  pub burst : ℤ
  pub rest : Rest

-- What the two files call of client-go and of the generated scheme. A constructor of client-go with
-- OrDie is the one without it, with a panic for its error; `QPS > 0` is a test on float32.
pub record Functions (Rate RateLimiter Serializer Rest RestClient DiscoveryClient : Type 0)
    : Type 0 where
  pub is_positive : Rate → Bool
  pub new_token_bucket_rate_limiter : Rate → ℤ → RateLimiter
  pub without_conversion : Serializer
  pub default_kubernetes_user_agent : String
  pub rest_client_for : RestConfig Rate RateLimiter Serializer Rest → Result RestClient
  pub new_discovery_client_for_config :
      RestConfig Rate RateLimiter Serializer Rest → Result DiscoveryClient
  pub new_discovery_client : RestClient → DiscoveryClient

pub record SchedulingV1alpha1Client (RestClient : Type 0) : Type 0 where
  pub rest_client : RestClient

pub record Clientset (RestClient DiscoveryClient : Type 0) : Type 0 where
  pub discovery_client : DiscoveryClient
  pub scheduling_v1alpha1 : SchedulingV1alpha1Client RestClient

abbrev pub scheme_group_version : String × String
scheme_group_version = ("scheduling.sigs.k8s.io", "v1alpha1")

-- An error is a panic.
unfoldable pub or_die : {A : Type 0} → Result A → Run A
or_die (ok a) = returns a
or_die (err e) = panics

module _ {Rate RateLimiter Serializer Rest RestClient DiscoveryClient : Type 0}
    (k8s : Functions Rate RateLimiter Serializer Rest RestClient DiscoveryClient) where
  unfoldable pub set_config_defaults :
      RestConfig Rate RateLimiter Serializer Rest → RestConfig Rate RateLimiter Serializer Rest
  set_config_defaults config = record config {
    group_version = some scheme_group_version;
    api_path = "/apis";
    negotiated_serializer = some k8s.without_conversion;
    user_agent =
        if config.user_agent == "" then k8s.default_kubernetes_user_agent else config.user_agent;
  }

  unfoldable pub scheduling_new_for_config :
      RestConfig Rate RateLimiter Serializer Rest → Result (SchedulingV1alpha1Client RestClient)
  unfolding set_config_defaults
  scheduling_new_for_config c = elim (k8s.rest_client_for (set_config_defaults c)) [
    | err e ↦ err e
    | ok client ↦ ok (record { rest_client = client })
  ]

  -- The rate limiter of the configuration that is used, or the error for the burst.
  unfoldable pub with_rate_limiter :
      RestConfig Rate RateLimiter Serializer Rest
      → Result (RestConfig Rate RateLimiter Serializer Rest)
  with_rate_limiter c = elim c.rate_limiter [
    | some limiter ↦ ok c
    | none ↦
        if k8s.is_positive c.qps
        then (if ltb_ℤ (pos 0) c.burst
            then ok
                (record c { rate_limiter = some (k8s.new_token_bucket_rate_limiter c.qps c.burst) })
            else err (
                message
                  "burst is required to be greater than 0 when RateLimiter is not set and QPS is set to greater than 0"))
        else ok c
  ]

  -- The two clients of one configuration, or the first error.
  unfoldable pub make_clients :
      RestConfig Rate RateLimiter Serializer Rest → Result (Clientset RestClient DiscoveryClient)
  unfolding scheduling_new_for_config
  make_clients config = elim (scheduling_new_for_config config) [
    | err e ↦ err e
    | ok scheduling ↦ elim (k8s.new_discovery_client_for_config config) [
      | err e ↦ err e
      | ok discovery ↦
          ok (record { discovery_client = discovery; scheduling_v1alpha1 = scheduling })
    ]
  ]

  unfoldable pub new_for_config :
      RestConfig Rate RateLimiter Serializer Rest → Result (Clientset RestClient DiscoveryClient)
  unfolding with_rate_limiter make_clients
  new_for_config c = elim (with_rate_limiter c) [ err e ↦ err e | ok config ↦ make_clients config ]

  unfoldable pub new_for_config_or_die :
      RestConfig Rate RateLimiter Serializer Rest → Run (Clientset RestClient DiscoveryClient)
  unfolding scheduling_new_for_config or_die
  new_for_config_or_die c = or_die (scheduling_new_for_config c) >>= λ scheduling.
      or_die (k8s.new_discovery_client_for_config c) >>= λ discovery.
      returns (record { discovery_client = discovery; scheduling_v1alpha1 = scheduling })

  unfoldable pub new_clientset : RestClient → Clientset RestClient DiscoveryClient
  new_clientset c = record {
    discovery_client = k8s.new_discovery_client c;
    scheduling_v1alpha1 = record { rest_client = c };
  }
