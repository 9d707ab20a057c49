-- ===== src/Client/Typed.antt =====
-- typed/scheduling/v1alpha1/topologyschedulingpolicy.go in pkg/generated/clientset/versioned: the
-- client that sends requests. A request is what the calls of its builder, rest.Request, set.
use super_scheduling.Prelude.{
  true, Option, none, some, List, [], ◌∷◌, String, ℤ, pos, Error, Run, returns,
}
use super_scheduling.Client.{
  MetaTypes, ListOptions, Policy, TopologySchedulingPolicyList, TopologySchedulingPolicyInterface,
  empty_policy, empty_list, Reply,
}
use super_scheduling.Client.Timeout.{timeout_of}

pub data Verb (M : MetaTypes) : Type 0 where
  get post put delete : Verb M
  patch : M.PatchType → Verb M

-- The options that VersionedParams encodes.
pub data Params (M : MetaTypes) : Type 0 where
  no_params : Params M
  get_params : M.GetOptions → Params M
  list_params : ListOptions M → Params M
  create_params : M.CreateOptions → Params M
  update_params : M.UpdateOptions → Params M
  patch_params : M.PatchOptions → Params M

pub data Body (M : MetaTypes) : Type 0 where
  no_body : Body M
  policy_body : Policy M → Body M
  delete_body : M.DeleteOptions → Body M
  bytes_body : M.Bytes → Body M

pub record Request (M : MetaTypes) : Type 0 where
  pub verb : Verb M
  pub namespace : String
  pub resource : String
  pub name : Option String
  pub subresources : List String
  pub params : Params M
  pub timeout : ℤ
  pub body : Body M

-- rest.Interface: `Do(ctx).Into(result)` for a policy and for a list, with what the result holds
-- after it, `Do(ctx).Error()`, and `Watch(ctx)`.
pub record RestClient (M : MetaTypes) (S : Type 0) : Type 0 where
  pub do_into : Request M → Policy M → S → (Policy M × Option Error) × S
  pub do_list_into :
      Request M
      → TopologySchedulingPolicyList M
      → S
      → (TopologySchedulingPolicyList M × Option Error) × S
  pub do_error : Request M → S → Option Error × S
  pub do_watch : Request M → S → Reply M.WatchInterface × S

module _ {M : MetaTypes} where
  -- A new request with `Namespace(ns)` and `Resource("topologyschedulingpolicies")`.
  unfoldable pub request : Verb M → String → Request M
  request verb ns = record {
    verb = verb;
    namespace = ns;
    resource = "topologyschedulingpolicies";
    name = none;
    subresources = [];
    params = no_params;
    timeout = pos 0;
    body = no_body;
  }

  -- The requests of the methods. `topologySchedulingPolicy.Name` is the name of an update.
  unfoldable pub get_request : String → String → M.GetOptions → Request M
  unfolding request
  get_request ns name options = record (request get ns) {
    name = some name;
    params = get_params options;
  }

  unfoldable pub list_request : String → ListOptions M → Request M
  unfolding request timeout_of
  list_request ns opts = record (request get ns) {
    params = list_params opts;
    timeout = timeout_of opts.timeout_seconds;
  }

  unfoldable pub watch_request : String → ListOptions M → Request M
  unfolding request timeout_of
  watch_request ns opts =
      let watching = record opts { watch = true } in
      record (request get ns) {
        params = list_params watching;
        timeout = timeout_of opts.timeout_seconds;
      }

  unfoldable pub create_request : String → Policy M → M.CreateOptions → Request M
  unfolding request
  create_request ns policy opts = record (request post ns) {
    params = create_params opts;
    body = policy_body policy;
  }

  unfoldable pub update_request : String → Policy M → M.UpdateOptions → Request M
  unfolding request
  update_request ns policy opts = record (request put ns) {
    name = some policy.name;
    params = update_params opts;
    body = policy_body policy;
  }

  unfoldable pub update_status_request : String → Policy M → M.UpdateOptions → Request M
  unfolding request
  update_status_request ns policy opts = record (request put ns) {
    name = some policy.name;
    subresources = "status" ∷ [];
    params = update_params opts;
    body = policy_body policy;
  }

  unfoldable pub delete_request : String → String → M.DeleteOptions → Request M
  unfolding request
  delete_request ns name opts = record (request delete ns) {
    name = some name;
    body = delete_body opts;
  }

  unfoldable pub delete_collection_request : String → M.DeleteOptions → ListOptions M → Request M
  unfolding request timeout_of
  delete_collection_request ns opts list_opts = record (request delete ns) {
    params = list_params list_opts;
    timeout = timeout_of list_opts.timeout_seconds;
    body = delete_body opts;
  }

  unfoldable pub patch_request :
      String → String → M.PatchType → M.Bytes → M.PatchOptions → List String → Request M
  unfolding request
  patch_request ns name pt data_bytes opts subresources = record (request (patch pt) ns) {
    name = some name;
    subresources = subresources;
    params = patch_params opts;
    body = bytes_body data_bytes;
  }

  module _ {S : Type 0} where
    -- The result starts as a new object and is returned with an error, too.
    unfoldable pub into_policy : RestClient M S → Request M → S → Run (Reply (Policy M) × S)
    into_policy client r s =
        let ((result, e), s') = client.do_into r (empty_policy M) s in
        returns ((some result, e), s')

    unfoldable pub into_list :
        RestClient M S → Request M → S → Run (Reply (TopologySchedulingPolicyList M) × S)
    into_list client r s =
        let ((result, e), s') = client.do_list_into r (empty_list M) s in
        returns ((some result, e), s')

    unfoldable pub new_topology_scheduling_policies :
        RestClient M S → String → TopologySchedulingPolicyInterface M S
    unfolding into_policy into_list get_request list_request watch_request create_request
        update_request update_status_request delete_request delete_collection_request patch_request
    new_topology_scheduling_policies client ns = record {
      create = λ policy opts. into_policy client (create_request ns policy opts);
      update = λ policy opts. into_policy client (update_request ns policy opts);
      update_status = λ policy opts. into_policy client (update_status_request ns policy opts);
      delete = λ name opts s. returns (client.do_error (delete_request ns name opts) s);
      delete_collection = λ opts list_opts s.
          returns (client.do_error (delete_collection_request ns opts list_opts) s);
      get = λ name opts. into_policy client (get_request ns name opts);
      list = λ opts. into_list client (list_request ns opts);
      watch = λ opts s. returns (client.do_watch (watch_request ns opts) s);
      patch = λ name pt data_bytes opts subresources.
          into_policy client (patch_request ns name pt data_bytes opts subresources);
    }
