-- ===== src/Client/Clientset/Made.antt =====
-- What NewForConfig and NewForConfigOrDie make of a configuration.
use super_scheduling.Prelude.{
  true, none, some, pos, ltb_ℤ, message, ok, err, string_eq, ◌≡◌, refl, sym, ap, ◌∙◌, Result-cases,
  Bool-cases, Option-cases, inl, inr,
}
use super_scheduling.Client.Clientset.{
  RestConfig, Functions, Clientset, set_config_defaults, scheduling_new_for_config, or_die,
  with_rate_limiter, make_clients, new_for_config, new_for_config_or_die,
}

module _ {Rate RateLimiter Serializer Rest RestClient DiscoveryClient : Type 0}
    (k8s : Functions Rate RateLimiter Serializer Rest RestClient DiscoveryClient) where
  make_clients_ok :
      (config : RestConfig Rate RateLimiter Serializer Rest)
      (cs : Clientset RestClient DiscoveryClient)
      → make_clients k8s config ≡ ok cs
      → (k8s.rest_client_for (set_config_defaults k8s config)
          ≡ ok cs.scheduling_v1alpha1.rest_client)
        × (k8s.new_discovery_client_for_config config ≡ ok cs.discovery_client)
  unfolding make_clients scheduling_new_for_config
  make_clients_ok config cs h =
      elim (Result-cases (k8s.rest_client_for (set_config_defaults k8s config))) [
        | inl (e, r) ↦
            let fails : make_clients k8s config ≡ err e =
              rw (make_clients, scheduling_new_for_config, r) refl in
            absurd (cc (fails, h))
        | inr (client, r) ↦ elim (Result-cases (k8s.new_discovery_client_for_config config)) [
          | inl (e, t) ↦
              let fails : make_clients k8s config ≡ err e =
                rw (make_clients, scheduling_new_for_config, r, t) refl in
              absurd (cc (fails, h))
          | inr (discovery, t) ↦
              let both : Clientset RestClient DiscoveryClient = record {
                discovery_client = discovery;
                scheduling_v1alpha1 = record { rest_client = client };
              } in
              let made : make_clients k8s config ≡ ok both =
                rw (make_clients, scheduling_new_for_config, r, t) refl in
              let same : both ≡ cs = cc (made, h) in
              (
                r ∙ ap (λ x. ok x.scheduling_v1alpha1.rest_client) same,
                t ∙ ap (λ x. ok x.discovery_client) same,
              )
        ]
      ]

  limited :
      (c config : RestConfig Rate RateLimiter Serializer Rest)
      → with_rate_limiter k8s c ≡ ok config
      → k8s.is_positive c.qps ≡ true
      → ¬ (config.rate_limiter ≡ none)
  unfolding with_rate_limiter
  limited c config h positive missing = elim (Option-cases c.rate_limiter) [
    | inr (limiter, q) ↦
        let kept : with_rate_limiter k8s c ≡ ok c = simp (with_rate_limiter, q) in
        let same : c ≡ config = cc (kept, h) in
        absurd (cc (q, missing, ap (λ x. x.rate_limiter) same))
    | inl q ↦ elim (Bool-cases (ltb_ℤ (pos 0) c.burst)) [
      | inl enough ↦
          let limiter = k8s.new_token_bucket_rate_limiter c.qps c.burst in
          let filled : with_rate_limiter k8s c ≡ ok (record c { rate_limiter = some limiter }) =
            rw (with_rate_limiter, q, positive, enough) refl in
          let same : record c { rate_limiter = some limiter } ≡ config = cc (filled, h) in
          absurd (cc (missing, ap (λ x. x.rate_limiter) same))
      | inr small ↦
          let fails : with_rate_limiter k8s c
              ≡ err (
                  message
                    "burst is required to be greater than 0 when RateLimiter is not set and QPS is set to greater than 0") =
            rw (with_rate_limiter, q, positive, small) refl in
          absurd (cc (fails, h))
    ]
  ]

  -- Both clients are made from one configuration, which has a rate limiter if the rate is positive.
  pub new_for_config_ok :
      (c : RestConfig Rate RateLimiter Serializer Rest) (cs : Clientset RestClient DiscoveryClient)
      → new_for_config k8s c ≡ ok cs
      → (config : RestConfig Rate RateLimiter Serializer Rest) × (with_rate_limiter k8s c
          ≡ ok config)
        × (k8s.is_positive c.qps ≡ true → ¬ (config.rate_limiter ≡ none))
        × (k8s.rest_client_for (set_config_defaults k8s config)
            ≡ ok cs.scheduling_v1alpha1.rest_client)
        × (k8s.new_discovery_client_for_config config ≡ ok cs.discovery_client)
  unfolding new_for_config make_clients scheduling_new_for_config
  new_for_config_ok c cs h = elim (Result-cases (with_rate_limiter k8s c)) [
    | inl (e, q) ↦
        let fails : new_for_config k8s c ≡ err e = rw (new_for_config, q) refl in
        absurd (cc (fails, h))
    | inr (config, q) ↦
        let made : new_for_config k8s c ≡ make_clients k8s config = rw (new_for_config, q) refl in
        let (rest, discovery) = make_clients_ok config cs (sym made ∙ h) in
        (config, q, limited c config q, rest, discovery)
  ]

  joined :
      (c : RestConfig Rate RateLimiter Serializer Rest)
      → new_for_config_or_die k8s c ≡ or_die (make_clients k8s c)
  unfolding new_for_config_or_die or_die make_clients
  joined c = elim (Result-cases (scheduling_new_for_config k8s c)) [
    | inl (e, q) ↦ rw (new_for_config_or_die, make_clients, q) refl
    | inr (scheduling, q) ↦ elim (Result-cases (k8s.new_discovery_client_for_config c)) [
      | inl (e, r) ↦ rw (new_for_config_or_die, make_clients, q, r) refl
      | inr (discovery, r) ↦ rw (new_for_config_or_die, make_clients, q, r) refl
    ]
  ]

  -- Without a limiter for NewForConfig to make, NewForConfigOrDie returns the client of NewForConfig,
  -- and panics in place of an error.
  pub or_die-new_for_config :
      (c : RestConfig Rate RateLimiter Serializer Rest)
      → with_rate_limiter k8s c ≡ ok c
      → new_for_config_or_die k8s c ≡ or_die (new_for_config k8s c)
  unfolding new_for_config new_for_config_or_die or_die
  or_die-new_for_config c h =
      let e : new_for_config k8s c ≡ make_clients k8s c = rw (new_for_config, h) refl in
      joined c ∙ ap or_die (sym e)
