-- ===== src/Client/Fake.antt =====
-- typed/scheduling/v1alpha1/fake in pkg/generated/clientset/versioned: the client for tests, which
-- hands actions to the reactors of the testing package.
use super_scheduling.Prelude.{
  Option, none, some, List, [], ◌∷◌, ◌++◌, String, Error, Run, returns, panics, ◌>>=◌,
  if◌then◌else◌,
}
use super_scheduling.Api.Kubernetes.{Labels, Selector}
use super_scheduling.Client.{
  MetaTypes, ListOptions, Policy, TopologySchedulingPolicyList, TopologySchedulingPolicyInterface,
  empty_policy, empty_list, Reply,
}

-- schema.GroupVersionResource and schema.GroupVersionKind.
pub record GroupVersionResource : Type 0 where
  pub group : String
  pub version : String
  pub resource : String

pub record GroupVersionKind : Type 0 where
  pub group : String
  pub version : String
  pub kind : String

abbrev pub topologyschedulingpolicies_resource : GroupVersionResource
topologyschedulingpolicies_resource = record {
  group = "scheduling.sigs.k8s.io";
  version = "v1alpha1";
  resource = "topologyschedulingpolicies";
}

abbrev pub topologyschedulingpolicies_kind : GroupVersionKind
topologyschedulingpolicies_kind = record {
  group = "scheduling.sigs.k8s.io";
  version = "v1alpha1";
  kind = "TopologySchedulingPolicy";
}

-- The actions of the testing package, by the function that makes them and its arguments.
pub data Action (M : MetaTypes) : Type 0 where
  new_get_action : GroupVersionResource → String → String → Action M
  new_list_action : GroupVersionResource → GroupVersionKind → String → ListOptions M → Action M
  new_watch_action : GroupVersionResource → String → ListOptions M → Action M
  new_create_action : GroupVersionResource → String → Policy M → Action M
  new_update_action : GroupVersionResource → String → Policy M → Action M
  new_update_subresource_action : GroupVersionResource → String → String → Policy M → Action M
  new_delete_action : GroupVersionResource → String → String → Action M
  new_delete_collection_action : GroupVersionResource → String → ListOptions M → Action M
  new_patch_subresource_action :
      GroupVersionResource → String → String → M.PatchType → M.Bytes → List String → Action M

-- runtime.Object, by its type.
pub data Object (M : MetaTypes) : Type 0 where
  policy_object : Policy M → Object M
  list_object : TopologySchedulingPolicyList M → Object M
  other_object : M.OtherObject → Object M

-- What the client calls of the testing and labels packages: Invokes with a default object,
-- InvokesWatch, the label selector of ExtractFromListOptions, which may be nil, `Everything()`, and
-- the labels in an object's metadata.
pub record Testing (M : MetaTypes) (S : Type 0) : Type 0 where
  pub invokes : Action M → Object M → S → Reply (Object M) × S
  pub invokes_watch : Action M → S → Reply M.WatchInterface × S
  pub extract_label : ListOptions M → Option Selector
  pub everything : Selector
  pub labels : Policy M → Labels

-- `obj.(*TopologySchedulingPolicy)` and `obj.(*TopologySchedulingPolicyList)` panic for an object
-- of another type.
unfoldable pub as_policy : {M : MetaTypes} → Object M → Run (Policy M)
as_policy (policy_object p) = returns p
as_policy (list_object l) = panics
as_policy (other_object o) = panics

unfoldable pub as_list : {M : MetaTypes} → Object M → Run (TopologySchedulingPolicyList M)
as_list (policy_object p) = panics
as_list (list_object l) = returns l
as_list (other_object o) = panics

module _ {M : MetaTypes} {S : Type 0} where
  unfoldable pub fake_policy : Testing M S → Action M → S → Run (Reply (Policy M) × S)
  unfolding as_policy
  fake_policy fake action s =
      let ((obj, e), s') = fake.invokes action (policy_object (empty_policy M)) s in
      elim obj [
        | none ↦ returns ((none, e), s')
        | some o ↦ as_policy o >>= λ p. returns ((some p, e), s')
      ]

  unfoldable pub matching :
      Testing M S → Selector → List (Policy M) → List (Policy M) → List (Policy M)
  matching fake label items [] = items
  matching fake label items (item ∷ rest) =
      matching fake label (if label.matches (fake.labels item) then items ++ item ∷ [] else items)
        rest

  unfoldable pub label_of : Testing M S → ListOptions M → Selector
  label_of fake opts = elim (fake.extract_label opts) [
    | none ↦ fake.everything
    | some label ↦ label
  ]

  unfoldable pub fake_list :
      Testing M S → String → ListOptions M → S → Run (Reply (TopologySchedulingPolicyList M) × S)
  unfolding matching label_of as_list
  fake_list fake ns opts s =
      let action =
        new_list_action topologyschedulingpolicies_resource topologyschedulingpolicies_kind ns
          opts in
      let ((obj, e), s') = fake.invokes action (list_object (empty_list M)) s in
      elim obj [
        | none ↦ returns ((none, e), s')
        | some o ↦ as_list o >>= λ l.
            let list : TopologySchedulingPolicyList M = record {
              list_meta = l.list_meta;
              items = matching fake (label_of fake opts) [] l.items;
            } in
            returns ((some list, e), s')
      ]

  -- The object is dropped.
  unfoldable pub fake_error : Testing M S → Action M → Object M → S → Run (Option Error × S)
  fake_error fake action default s =
      let ((_, e), s') = fake.invokes action default s in returns (e, s')

  unfoldable pub fake_topology_scheduling_policies :
      Testing M S → String → TopologySchedulingPolicyInterface M S
  unfolding fake_policy fake_list fake_error
  fake_topology_scheduling_policies fake ns =
      let resource = topologyschedulingpolicies_resource in
      record {
        create = λ policy opts. fake_policy fake (new_create_action resource ns policy);
        update = λ policy opts. fake_policy fake (new_update_action resource ns policy);
        update_status = λ policy opts.
            fake_policy fake (new_update_subresource_action resource "status" ns policy);
        delete = λ name opts.
            fake_error fake (new_delete_action resource ns name) (policy_object (empty_policy M));
        delete_collection = λ opts list_opts.
            fake_error fake (new_delete_collection_action resource ns list_opts)
              (list_object (empty_list M));
        get = λ name opts. fake_policy fake (new_get_action resource ns name);
        list = λ opts. fake_list fake ns opts;
        watch = λ opts s. returns (fake.invokes_watch (new_watch_action resource ns opts) s);
        patch = λ name pt data_bytes opts subresources.
            fake_policy fake
              (new_patch_subresource_action resource ns name pt data_bytes subresources);
      }
