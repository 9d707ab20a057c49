-- ===== src/Informers/Policy.antt =====
-- The informer of the policies: scheduling/v1alpha1/topologyschedulingpolicy.go, the two
-- interface.go above it and generic.go in pkg/generated/informers/externalversions. The factory
-- that a Go value points to is the state that a call takes and returns.
pub mod Shared
use super_scheduling.Prelude.{
  Option, none, some, List, [], ◌∷◌, String, ℤ, Error, message, Result, ok, err, Run, Bool, true,
  ◌&&◌, ◌==◌, string_eq, if◌then◌else◌,
}
use super_scheduling.Api.Framework.{TopologySchedulingPolicyLister}
use super_scheduling.Lister.{Indexer, new_topology_scheduling_policy_lister}
use super_scheduling.Client.{
  MetaTypes, ListOptions, Policy, TopologySchedulingPolicyList, TopologySchedulingPolicyInterface,
  Reply,
}
use super_scheduling.Client.Fake.{GroupVersionResource}
use super_scheduling.Informers.Factory.{InformerAddress, SharedInformerFactory, World, informer_for}

-- The type that the informers of policies are kept under.
abbrev pub policy_type : String
policy_type = "*v1alpha1.TopologySchedulingPolicy"

-- cache.ListWatch.
pub record ListWatch (M : MetaTypes) (S : Type 0) : Type 0 where
  pub list_func : ListOptions M → S → Run (Reply (TopologySchedulingPolicyList M) × S)
  pub watch_func : ListOptions M → S → Run (Reply M.WatchInterface × S)

-- A cache.SharedIndexInformer, by the arguments of NewSharedIndexInformer. An indexer is the name of
-- an index.
pub record SharedIndexInformer (M : MetaTypes) (S : Type 0) : Type 0 where
  pub list_watch : ListWatch M S
  pub example_object : String
  pub resync_period : ℤ
  pub indexers : List String

-- schema.GroupResource.
pub record GroupResource : Type 0 where
  pub group : String
  pub resource : String

-- `client.SchedulingV1alpha1().TopologySchedulingPolicies(namespace)` of a versioned.Interface.
abbrev pub VersionedInterface : MetaTypes → Type 0 → Type 0
VersionedInterface M S = String → TopologySchedulingPolicyInterface M S

-- internalinterfaces.TweakListOptionsFunc, as what it makes of the options.
abbrev pub TweakListOptionsFunc : MetaTypes → Type 0
TweakListOptionsFunc M = ListOptions M → ListOptions M

abbrev pub Factory : MetaTypes → Type 0 → Type 0
Factory M S = SharedInformerFactory (VersionedInterface M S) (TweakListOptionsFunc M)

-- What `group`, `version` and `topologySchedulingPolicyInformer` hold next to the factory.
pub record Scope (M : MetaTypes) : Type 0 where
  pub namespace : String
  pub tweak_list_options : Option (TweakListOptionsFunc M)

abbrev pub is_policies : GroupVersionResource → Bool
is_policies r =
    (r.group == "scheduling.sigs.k8s.io")
    && (r.version == "v1alpha1")
    && (r.resource == "topologyschedulingpolicies")

module _ {M : MetaTypes} where
  unfoldable pub tweaked : Option (TweakListOptionsFunc M) → ListOptions M → ListOptions M
  tweaked none options = options
  tweaked (some tweak) options = tweak options

  -- New of the group and of the version, V1alpha1() and TopologySchedulingPolicies() pass the
  -- namespace and the function on.
  abbrev pub new_group : String → Option (TweakListOptionsFunc M) → Scope M
  new_group namespace tweak = record { namespace = namespace; tweak_list_options = tweak }

  abbrev pub new_version : String → Option (TweakListOptionsFunc M) → Scope M
  new_version namespace tweak = record { namespace = namespace; tweak_list_options = tweak }

  unfoldable pub v1alpha1 : Scope M → Scope M
  v1alpha1 g = new_version g.namespace g.tweak_list_options

  unfoldable pub topology_scheduling_policies : Scope M → Scope M
  topology_scheduling_policies v = record {
    namespace = v.namespace;
    tweak_list_options = v.tweak_list_options;
  }

  module _ {S : Type 0} where
    unfoldable pub scheduling : Factory M S → Scope M
    scheduling f = new_group f.namespace f.tweak_list_options

    unfoldable pub new_filtered_topology_scheduling_policy_informer :
        VersionedInterface M S
        → String
        → ℤ
        → List String
        → Option (TweakListOptionsFunc M)
        → SharedIndexInformer M S
    unfolding tweaked
    new_filtered_topology_scheduling_policy_informer client namespace resync_period indexers tweak =
        record {
          list_watch = record {
            list_func = λ options. (client namespace).list (tweaked tweak options);
            watch_func = λ options. (client namespace).watch (tweaked tweak options);
          };
          example_object = policy_type;
          resync_period = resync_period;
          indexers = indexers;
        }

    unfoldable pub new_topology_scheduling_policy_informer :
        VersionedInterface M S → String → ℤ → List String → SharedIndexInformer M S
    unfolding new_filtered_topology_scheduling_policy_informer
    new_topology_scheduling_policy_informer client namespace resync_period indexers =
        new_filtered_topology_scheduling_policy_informer client namespace resync_period indexers
          none

    unfoldable pub default_informer : Scope M → VersionedInterface M S → ℤ → SharedIndexInformer M S
    unfolding new_filtered_topology_scheduling_policy_informer
    default_informer f client resync_period =
        new_filtered_topology_scheduling_policy_informer client f.namespace resync_period
          ("namespace" ∷ []) f.tweak_list_options

    unfoldable pub informer :
        Scope M
        → Factory M S
        → World (SharedIndexInformer M S)
        → InformerAddress × Factory M S × World (SharedIndexInformer M S)
    unfolding informer_for default_informer
    informer scope f w = informer_for policy_type (default_informer scope) f w

    -- `indexer_of` is GetIndexer of an informer.
    unfoldable pub lister :
        (InformerAddress → Indexer (Policy M))
        → Scope M
        → Factory M S
        → World (SharedIndexInformer M S)
        → TopologySchedulingPolicyLister M.LabelSelector
          × Factory M S
          × World (SharedIndexInformer M S)
    unfolding informer new_topology_scheduling_policy_lister
    lister indexer_of scope f w =
        let (a, f', w') = informer scope f w in
        (new_topology_scheduling_policy_lister (indexer_of a), f', w')

    -- ForResource: the informer of a known resource with its group resource.
    unfoldable pub for_resource :
        GroupVersionResource
        → Factory M S
        → World (SharedIndexInformer M S)
        → Result (InformerAddress × GroupResource) × Factory M S × World (SharedIndexInformer M S)
    unfolding informer scheduling v1alpha1 topology_scheduling_policies
    for_resource resource f w =
        let (a, f', w') = informer (topology_scheduling_policies (v1alpha1 (scheduling f))) f w in
        let generic : GroupResource = record {
          group = resource.group;
          resource = resource.resource;
        } in
        if is_policies resource
        then (ok (a, generic), f', w')
        else (err (message "no informer found for the resource"), f, w)
