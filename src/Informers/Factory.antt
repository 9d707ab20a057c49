-- ===== src/Informers/Factory.antt =====
-- pkg/generated/informers/externalversions/factory.go. The methods hold the factory's lock from
-- their start to their end, so a concurrent use of the factory is a sequence of calls.
pub mod Shared
pub mod Once
pub mod Invariant
pub mod Runs
use super_scheduling.Prelude.{
  ℕ, suc, Bool, true, false, Option, none, some, List, [], ◌∷◌, ◌++◌, String, Map, lookup, insert,
  ℤ, pos, length, ◌==◌, string_eq, if◌then◌else◌,
}

-- The address of an informer: informers are compared as pointers.
abbrev pub InformerAddress : Type 0
InformerAddress = ℕ

-- The factory, for clients, and for functions that change list options, of the types `Client` and
-- `Tweak`; the key of a map is the name of a type. A resync period is in nanoseconds.
pub record SharedInformerFactory (Client Tweak : Type 0) : Type 0 where
  pub client : Client
  pub namespace : String
  pub tweak_list_options : Option Tweak
  pub default_resync : ℤ
  pub custom_resync : Map String ℤ
  pub informers : Map String InformerAddress
  pub started_informers : Map String Bool

-- What the factory has made and set off: the informers by address, and the informers for which a
-- goroutine with `Run` was started.
pub record World (SharedIndexInformer : Type 0) : Type 0 where
  pub created : List SharedIndexInformer
  pub runs : List InformerAddress

-- `m[t]` of a map to Booleans.
unfoldable pub is_started : Map String Bool → String → Bool
is_started started t = elim (lookup t started) [ none ↦ false | some b ↦ b ]

unfoldable pub set_resync : Map String ℤ → Map String ℤ → Map String ℤ
set_resync [] custom = custom
set_resync ((t, period) ∷ config) custom = set_resync config (insert t period custom)

-- The loop of Start over the informers, with the map and the goroutines so far.
unfoldable pub start_informers :
    Map String InformerAddress
    → Map String Bool
    → List InformerAddress
    → Map String Bool × List InformerAddress
unfolding is_started
start_informers [] started runs = (started, runs)
start_informers ((informer_type, informer) ∷ informers) started runs =
    let run =
      start_informers informers (insert informer_type true started) (runs ++ informer ∷ []) in
    let pass = start_informers informers started runs in
    if is_started started informer_type then pass else run

-- The informers that are started, under their types.
unfoldable pub started_only :
    Map String InformerAddress
    → Map String Bool
    → Map String InformerAddress
    → Map String InformerAddress
unfolding is_started
started_only [] started informers = informers
started_only ((informer_type, informer) ∷ rest) started informers = started_only rest started (
    if is_started started informer_type then insert informer_type informer informers else informers)

unfoldable pub wait_all :
    (InformerAddress → Bool) → Map String InformerAddress → Map String Bool → Map String Bool
wait_all synced [] res = res
wait_all synced ((informer_type, informer) ∷ informers) res =
    wait_all synced informers (insert informer_type (synced informer) res)

module _ {Client Tweak : Type 0} where
  unfoldable pub with_custom_resync_config :
      Map String ℤ → SharedInformerFactory Client Tweak → SharedInformerFactory Client Tweak
  unfolding set_resync
  with_custom_resync_config config factory = record factory {
    custom_resync = set_resync config factory.custom_resync;
  }

  abbrev pub with_tweak_list_options :
      Option Tweak → SharedInformerFactory Client Tweak → SharedInformerFactory Client Tweak
  with_tweak_list_options tweak factory = record factory { tweak_list_options = tweak }

  abbrev pub with_namespace :
      String → SharedInformerFactory Client Tweak → SharedInformerFactory Client Tweak
  with_namespace namespace factory = record factory { namespace = namespace }

  unfoldable pub apply_options :
      List (SharedInformerFactory Client Tweak → SharedInformerFactory Client Tweak)
      → SharedInformerFactory Client Tweak
      → SharedInformerFactory Client Tweak
  apply_options [] factory = factory
  apply_options (opt ∷ options) factory = apply_options options (opt factory)

  unfoldable pub new_shared_informer_factory_with_options :
      Client
      → ℤ
      → List (SharedInformerFactory Client Tweak → SharedInformerFactory Client Tweak)
      → SharedInformerFactory Client Tweak
  unfolding apply_options
  new_shared_informer_factory_with_options client default_resync options =
      apply_options options (record {
        client = client;
        namespace = "";
        tweak_list_options = none;
        default_resync = default_resync;
        custom_resync = [];
        informers = [];
        started_informers = [];
      })

  unfoldable pub new_shared_informer_factory : Client → ℤ → SharedInformerFactory Client Tweak
  unfolding new_shared_informer_factory_with_options
  new_shared_informer_factory client default_resync =
      new_shared_informer_factory_with_options client default_resync []

  unfoldable pub new_filtered_shared_informer_factory :
      Client → ℤ → String → Option Tweak → SharedInformerFactory Client Tweak
  unfolding new_shared_informer_factory_with_options
  new_filtered_shared_informer_factory client default_resync namespace tweak =
      new_shared_informer_factory_with_options client default_resync
        (with_namespace namespace ∷ with_tweak_list_options tweak ∷ [])

  -- The period of a type: its own where one is configured.
  unfoldable pub resync_period : SharedInformerFactory Client Tweak → String → ℤ
  resync_period f informer_type = elim (lookup informer_type f.custom_resync) [
    | none ↦ f.default_resync
    | some period ↦ period
  ]

  -- `synced` is what cache.WaitForCacheSync returns for an informer.
  unfoldable pub wait_for_cache_sync :
      (InformerAddress → Bool) → SharedInformerFactory Client Tweak → Map String Bool
  unfolding started_only wait_all
  wait_for_cache_sync synced f =
      wait_all synced (started_only f.informers f.started_informers []) []

  module _ {SharedIndexInformer : Type 0} where
    -- InformerFor: an informer that is held, or a new one.
    unfoldable pub informer_for :
        String
        → (Client → ℤ → SharedIndexInformer)
        → SharedInformerFactory Client Tweak
        → World SharedIndexInformer
        → InformerAddress × SharedInformerFactory Client Tweak × World SharedIndexInformer
    unfolding resync_period
    informer_for informer_type new_func f w = elim (lookup informer_type f.informers) [
      | some informer ↦ (informer, f, w)
      | none ↦
          let informer = length w.created in
          (
            informer,
            record f { informers = insert informer_type informer f.informers },
            record w {
              created = w.created ++ new_func f.client (resync_period f informer_type) ∷ [];
            },
          )
    ]

    unfoldable pub start :
        SharedInformerFactory Client Tweak
        → World SharedIndexInformer
        → SharedInformerFactory Client Tweak × World SharedIndexInformer
    unfolding start_informers
    start f w =
        let (started, runs) = start_informers f.informers f.started_informers w.runs in
        (record f { started_informers = started }, record w { runs = runs })

    -- What the two methods do to a factory, in any order and any number: each call holds the lock.
    pub data Calls (f : SharedInformerFactory Client Tweak) (w : World SharedIndexInformer)
        : SharedInformerFactory Client Tweak → World SharedIndexInformer → Type 0 where
      none_made : Calls f w f w
      asked :
          (informer_type : String) (new_func : Client → ℤ → SharedIndexInformer)
          {f' : SharedInformerFactory Client Tweak} {w' : World SharedIndexInformer}
          → Calls f w f' w'
          → Calls f w
              (informer_for informer_type new_func f' w').1
              (informer_for informer_type new_func f' w').2
      ran :
          {f' : SharedInformerFactory Client Tweak} {w' : World SharedIndexInformer}
          → Calls f w f' w'
          → Calls f w (start f' w').0 (start f' w').1
