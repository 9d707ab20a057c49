-- ===== src/Lister.antt =====
-- pkg/generated/listers/scheduling/v1alpha1/topologyschedulingpolicy.go: the policies that an
-- informer's indexer holds.
pub mod Found
use Prim.Native.String.{◌++◌ as string_append}
use super_scheduling.Prelude.{
  Option, none, some, List, [], ◌∷◌, ◌++◌, String, Result, Error, ok, err, message,
}
use super_scheduling.Api.Kubernetes.{Labels, Selector}
use super_scheduling.Api.Scheduling.{TopologySchedulingPolicy}
use super_scheduling.Api.Framework.{TopologySchedulingPolicyLister}

-- cache.Indexer with the functions of its package: the objects that ListAll and
-- ListAllByNamespace visit, with the error at their end, and GetByKey. `not_found` is
-- the error of a name with no object.
pub record Indexer (Policy : Type 0) : Type 0 where
  pub list_all : Selector → List Policy × Option Error
  pub list_all_by_namespace : String → Selector → List Policy × Option Error
  pub get_by_key : String → Result (Option Policy)
  pub not_found : String → Error

-- The function that a listing calls on each object appends it to the result.
unfoldable pub append_all {ℓ} : {A : Type ℓ} → List A → List A → List A
append_all ret [] = ret
append_all ret (m ∷ objects) = append_all (ret ++ m ∷ []) objects

-- Go's `(ret, err)`, of which a caller uses one.
unfoldable pub collect : {Policy : Type 0} → List Policy × Option Error → Result (List Policy)
unfolding append_all
collect (objects, none) = ok (append_all [] objects)
collect (objects, some e) = err e

abbrev pub key_of : String → String → String
key_of namespace name = string_append namespace (string_append "/" name)

module _ {Policy : Type 0} (indexer : Indexer Policy) where
  unfoldable pub list_policies : Selector → Result (List Policy)
  unfolding collect
  list_policies selector = collect (indexer.list_all selector)

  unfoldable pub list_namespace_policies : String → Selector → Result (List Policy)
  unfolding collect
  list_namespace_policies namespace selector =
      collect (indexer.list_all_by_namespace namespace selector)

  unfoldable pub get_policy : String → String → Result Policy
  get_policy namespace name = elim (indexer.get_by_key (key_of namespace name)) [
    | err e ↦ err e
    | ok obj ↦ elim obj [ none ↦ err (indexer.not_found name) | some tsp ↦ ok tsp ]
  ]

-- The lister as the plugin and the strategy use it.
unfoldable pub new_topology_scheduling_policy_lister :
    {LabelSelector : Type 0}
    → Indexer (TopologySchedulingPolicy LabelSelector)
    → TopologySchedulingPolicyLister LabelSelector
unfolding list_namespace_policies get_policy
new_topology_scheduling_policy_lister indexer = record {
  list = list_namespace_policies indexer;
  get = get_policy indexer;
}
