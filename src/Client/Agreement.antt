-- ===== src/Client/Agreement.antt =====
-- The client for tests gives the answers of the client that sends requests, without its options.
pub mod Calls
mod Replies
use super_scheduling.Prelude.{
  Bool, Option, List, ◌++◌, Error, message, Result, err, Run, returns, panics, ◌>>=◌, ◌≡◌, sym, ap,
  ◌==◌, string_eq, if◌then◌else◌, arith, ◌⊎◌, ℤ,
}
use mathlib.Core.List.{append_assoc, append-nil}
use super_scheduling.Api.Kubernetes.{Labels, Selector}
use super_scheduling.Client.{
  MetaTypes, ListOptions, Policy, TopologySchedulingPolicyInterface, Reply,
}
use super_scheduling.Client.Typed.{
  Verb, get, post, put, delete, patch, Params, no_params, get_params, list_params, create_params,
  update_params, patch_params, Body, no_body, policy_body, delete_body, bytes_body, RestClient,
}
use super_scheduling.Client.Fake.{
  topologyschedulingpolicies_kind, GroupVersionResource, new_list_action, new_watch_action,
  new_delete_action, new_delete_collection_action, Object, as_policy, as_list, Testing, matching,
}
use super_scheduling.Client.Agreement.Calls.{Answer, IsFakeReply, IsFakeAnswer}
use super_scheduling.Client.Server.{Blank, Server, reactors}

module _ {M : MetaTypes} {S : Type 0} (server : Server M S) (blank : Blank M)
    (extract_label : ListOptions M → Option Selector) (everything : Selector)
    (labels : Policy M → Labels) where
  abbrev fake : Testing M S
  fake = reactors server blank extract_label everything labels

  -- The first run returns what the client for tests returns where the second returns its answer,
  -- and both leave the same state.
  abbrev pub IsFakeRun : Run (Answer M × S) → Run (Answer M × S) → Type 0
  IsFakeRun run run' =
      (a a' : Answer M) × (t : S) × (run ≡ returns (a, t))
      × (run' ≡ returns (a', t))
      × IsFakeAnswer a a'
