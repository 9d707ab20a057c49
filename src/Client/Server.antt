-- ===== src/Client/Server.antt =====
-- A server as both clients see it: what it reads from a request, which is all of it, and from an
-- action, which has no options but those of a list and no timeout: these are read as left blank.
-- What the server does for an operation is left open.
use super_scheduling.Prelude.{
  Option, none, some, List, [], ◌∷◌, String, Error, message, Result, ok, err, ◌==◌, string_eq, ℤ,
  pos, if◌then◌else◌,
}
use super_scheduling.Api.Kubernetes.{Labels, Selector}
use super_scheduling.Client.{MetaTypes, ListOptions, Policy, TopologySchedulingPolicyList, Reply}
use super_scheduling.Client.Typed.{
  Verb, get, post, put, delete, patch, Params, no_params, get_params, list_params, create_params,
  update_params, patch_params, Body, no_body, policy_body, delete_body, bytes_body, Request,
  RestClient,
}
use super_scheduling.Client.Fake.{
  Action, new_get_action, new_list_action, new_watch_action, new_create_action, new_update_action,
  new_update_subresource_action, new_delete_action, new_delete_collection_action,
  new_patch_subresource_action, Object, policy_object, list_object, Testing,
}

abbrev pub refusal : Error
refusal = message "the server could not find the requested resource"

-- What a client can ask a server for, with all the options. A list and a watch, which the flag in
-- their options tells apart, and the deletion of a collection have the timeout of the request, too.
pub data Operation (M : MetaTypes) : Type 0 where
  getting : String → String → M.GetOptions → Operation M
  listing : String → M.Selection → Option ℤ → ℤ → Operation M
  watching : String → M.Selection → Option ℤ → ℤ → Operation M
  creating : String → Policy M → M.CreateOptions → Operation M
  updating : String → Policy M → List String → M.UpdateOptions → Operation M
  deleting : String → String → M.DeleteOptions → Operation M
  clearing : String → ListOptions M → ℤ → M.DeleteOptions → Operation M
  patching : String → String → M.PatchType → M.Bytes → List String → M.PatchOptions → Operation M

-- The options of a call that sets none.
pub record Blank (M : MetaTypes) : Type 0 where
  pub get_options : M.GetOptions
  pub create_options : M.CreateOptions
  pub update_options : M.UpdateOptions
  pub delete_options : M.DeleteOptions
  pub patch_options : M.PatchOptions

-- A server answers with an object, a list, nothing or a watch, or with an error.
pub record Server (M : MetaTypes) (S : Type 0) : Type 0 where
  pub serve : Operation M → S → Result (Policy M) × S
  pub serve_list : Operation M → S → Result (TopologySchedulingPolicyList M) × S
  pub serve_done : Operation M → S → Option Error × S
  pub serve_watch : Operation M → S → Reply M.WatchInterface × S

module _ {M : MetaTypes} where
  -- How a server reads a request: the method, the path, the parameters and the body.
  unfoldable pub operation :
      String → Verb M → Option String → List String → Params M → ℤ → Body M → Option (Operation M)
  operation ns get (some name) [] (get_params opts) timeout no_body = some (getting ns name opts)
  operation ns get none [] (list_params opts) timeout no_body = some (
      if opts.watch
      then watching ns opts.selection opts.timeout_seconds timeout
      else listing ns opts.selection opts.timeout_seconds timeout)
  operation ns post none [] (create_params opts) timeout (policy_body p) = some (creating ns p opts)
  operation ns put (some name) subresources (update_params opts) timeout (policy_body p) =
      if name == p.name then some (updating ns p subresources opts) else none
  operation ns delete (some name) [] no_params timeout (delete_body opts) =
      some (deleting ns name opts)
  operation ns delete none [] (list_params list_opts) timeout (delete_body opts) =
      some (clearing ns list_opts timeout opts)
  operation ns (patch pt) (some name) subresources (patch_params opts) timeout (bytes_body d) =
      some (patching ns name pt d subresources opts)
  operation ns _ _ _ _ _ _ = none

  unfoldable pub operation_of_request : Request M → Option (Operation M)
  unfolding operation
  operation_of_request r =
      if r.resource == "topologyschedulingpolicies"
      then operation r.namespace r.verb r.name r.subresources r.params r.timeout r.body
      else none

  unfoldable pub operation_of_action : Blank M → Action M → Operation M
  operation_of_action blank (new_get_action _ ns name) = getting ns name blank.get_options
  operation_of_action blank (new_list_action _ _ ns opts) = listing ns opts.selection none (pos 0)
  operation_of_action blank (new_watch_action _ ns opts) = watching ns opts.selection none (pos 0)
  operation_of_action blank (new_create_action _ ns p) = creating ns p blank.create_options
  operation_of_action blank (new_update_action _ ns p) = updating ns p [] blank.update_options
  operation_of_action blank (new_update_subresource_action _ sub ns p) =
      updating ns p (sub ∷ []) blank.update_options
  operation_of_action blank (new_delete_action _ ns name) = deleting ns name blank.delete_options
  operation_of_action blank (new_delete_collection_action _ ns opts) =
      clearing ns (record opts { timeout_seconds = none }) (pos 0) blank.delete_options
  operation_of_action blank (new_patch_subresource_action _ ns name pt d subs) =
      patching ns name pt d subs blank.patch_options

  module _ {S : Type 0} (server : Server M S) where
    -- The REST client of a server: a result is filled only without an error.
    unfoldable pub fill : {A : Type 0} → A → Result A × S → (A × Option Error) × S
    fill old (ok a, s) = ((a, none), s)
    fill old (err e, s) = ((old, some e), s)

    unfoldable pub rest_client : RestClient M S
    unfolding operation_of_request fill
    rest_client = record {
      do_into = λ r old s. elim (operation_of_request r) [
        | none ↦ ((old, some refusal), s)
        | some op ↦ fill old (server.serve op s)
      ];
      do_list_into = λ r old s. elim (operation_of_request r) [
        | none ↦ ((old, some refusal), s)
        | some op ↦ fill old (server.serve_list op s)
      ];
      do_error = λ r s. elim (operation_of_request r) [
        | none ↦ (some refusal, s)
        | some op ↦ server.serve_done op s
      ];
      do_watch = λ r s. elim (operation_of_request r) [
        | none ↦ ((none, some refusal), s)
        | some op ↦ server.serve_watch op s
      ];
    }

    -- The reactors of a server: no object comes with an error, nor from a deletion.
    unfoldable pub object : {A : Type 0} → (A → Object M) → Result A × S → Reply (Object M) × S
    object wrap_object (ok a, s) = ((some (wrap_object a), none), s)
    object wrap_object (err e, s) = ((none, some e), s)

    unfoldable pub done : Option Error × S → Reply (Object M) × S
    done (e, s) = ((none, e), s)

    unfoldable pub react : Operation M → S → Reply (Object M) × S
    unfolding object done
    react (listing ns sel t timeout) s =
        object list_object (server.serve_list (listing ns sel t timeout) s)
    react (deleting ns name opts) s = done (server.serve_done (deleting ns name opts) s)
    react (clearing ns list_opts timeout opts) s =
        done (server.serve_done (clearing ns list_opts timeout opts) s)
    react op s = object policy_object (server.serve op s)

    unfoldable pub reactors :
        Blank M → (ListOptions M → Option Selector) → Selector → (Policy M → Labels) → Testing M S
    unfolding operation_of_action react
    reactors blank extract_label everything labels = record {
      invokes = λ action default s. react (operation_of_action blank action) s;
      invokes_watch = λ action s. server.serve_watch (operation_of_action blank action) s;
      extract_label = extract_label;
      everything = everything;
      labels = labels;
    }
