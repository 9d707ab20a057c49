-- ===== src/Tests/Client.antt =====
-- The clients' theorems over a small server, and the policies' informer over its client.
use super_scheduling.Prelude.{
  ◌≡◌, ◌≤◌, ◌↔◌, refl, true, false, Option, some, none, List, [], ◌∷◌, String, ℤ, pos, negsuc,
  pos_part, neg_part, ltb_ℤ, Result, ok, err, message, ◌==◌, string_eq, if◌then◌else◌, get_elem?,
}
use super_scheduling.Api.Kubernetes.{Labels, Selector}
use super_scheduling.Client.{MetaTypes, ListOptions, Policy, TopologySchedulingPolicyInterface}
use super_scheduling.Client.Typed.{new_topology_scheduling_policies}
use super_scheduling.Client.Timeout.{timeout_of, nanoseconds, timeout_of_iff}
use super_scheduling.Client.Fake.{
  topologyschedulingpolicies_resource, fake_topology_scheduling_policies,
}
use super_scheduling.Client.Server.{
  Operation, getting, creating, Blank, Server, rest_client, reactors,
}
use super_scheduling.Client.Clientset.{
  RestConfig, Functions, Clientset, new_for_config, with_rate_limiter, set_config_defaults,
}
use super_scheduling.Client.Clientset.Made.{new_for_config_ok}
use super_scheduling.Informers.Factory.{SharedInformerFactory, World, none_made, ran, start}
use super_scheduling.Informers.Factory.Runs.{new_world}
use super_scheduling.Informers.Policy.{
  VersionedInterface, TweakListOptionsFunc, SharedIndexInformer, tweaked, informer, for_resource,
}
use super_scheduling.Informers.Policy.Shared.{scope_of, filtered, for_resource-informer}

abbrev meta : MetaTypes
meta = record {
  GetOptions = Unit;
  CreateOptions = Unit;
  UpdateOptions = Unit;
  DeleteOptions = Unit;
  PatchOptions = Unit;
  PatchType = Unit;
  Bytes = Unit;
  Selection = Unit;
  ListMeta = Unit;
  empty_list_meta = tt;
  LabelSelector = Unit;
  WatchInterface = Unit;
  OtherObject = Unit;
}

-- The state of the server is its policies.
abbrev Store : Type 0
Store = List (Policy meta)

abbrev find : String → Store → Result (Policy meta)
find name [] = err (message "not found")
find name (p ∷ store) = let rest = find name store in if p.name == name then ok p else rest

abbrev serve : Operation meta → Store → Result (Policy meta) × Store
serve (creating ns p opts) store = (ok p, p ∷ store)
serve (getting ns name opts) store = (find name store, store)
serve _ store = (err (message "not supported"), store)

abbrev server : Server meta Store
server = record {
  serve = serve;
  serve_list = λ op store. (ok (record { list_meta = tt; items = store }), store);
  serve_done = λ op store. (none, []);
  serve_watch = λ op store. ((some tt, none), store);
}

abbrev blank : Blank meta
blank = record {
  get_options = tt;
  create_options = tt;
  update_options = tt;
  delete_options = tt;
  patch_options = tt;
}

abbrev no_labels : Policy meta → Labels
no_labels p = []

abbrev any_label : Selector
any_label = record { matches = λ _. true }

abbrev no_selector : ListOptions meta → Option Selector
no_selector opts = none

abbrev fake_client : TopologySchedulingPolicyInterface meta Store
fake_client =
    fake_topology_scheduling_policies (reactors server blank no_selector any_label no_labels)
      "default"

abbrev client : VersionedInterface meta Store
client = new_topology_scheduling_policies (rest_client server)

abbrev every : ListOptions meta
every = record { timeout_seconds = some (pos 5); watch = false; selection = tt }

timeout_of_iff_example :
    (timeout_of (some (negsuc 4)) ≡ nanoseconds (negsuc 4))
    ↔ ((pos_part (negsuc 4) ≤ 9223372036) × (neg_part (negsuc 4) ≤ 9223372036))
timeout_of_iff_example = timeout_of_iff (negsuc 4)

-- 2 ^ 55 seconds are a timeout of 0, that is, none.
no_timeout : timeout_of (some (pos 36028797018963968)) ≡ pos 0
unfolding timeout_of
no_timeout = refl

-- Rates are integers, a limiter is the rate and burst, and a client is the user agent or the path.
abbrev Config : Type 0
Config = RestConfig ℤ (ℤ × ℤ) Unit Unit

abbrev library : Functions ℤ (ℤ × ℤ) Unit Unit (String × Option (ℤ × ℤ)) (Option (ℤ × ℤ))
library = record {
  is_positive = ltb_ℤ (pos 0);
  new_token_bucket_rate_limiter = λ qps burst. (qps, burst);
  without_conversion = tt;
  default_kubernetes_user_agent = "default agent";
  rest_client_for = λ c. ok (c.user_agent, c.rate_limiter);
  new_discovery_client_for_config = λ c. ok c.rate_limiter;
  new_discovery_client = λ c. c.1;
}

abbrev config : Config
config = record {
  group_version = none;
  api_path = "";
  negotiated_serializer = none;
  user_agent = "";
  rate_limiter = none;
  qps = pos 5;
  burst = pos 10;
  rest = tt;
}

abbrev clientset : Clientset (String × Option (ℤ × ℤ)) (Option (ℤ × ℤ))
clientset = record {
  discovery_client = some (pos 5, pos 10);
  scheduling_v1alpha1 = record { rest_client = ("default agent", some (pos 5, pos 10)) };
}

new_for_config_ok_example :
    (c : Config) × (with_rate_limiter library config ≡ ok c)
    × (library.is_positive config.qps ≡ true → ¬ (c.rate_limiter ≡ none))
    × (library.rest_client_for (set_config_defaults library c)
        ≡ ok ("default agent", some (pos 5, pos 10)))
    × (library.new_discovery_client_for_config c ≡ ok (some (pos 5, pos 10)))
unfolding new_for_config
new_for_config_ok_example = new_for_config_ok library config clientset refl

abbrev timed : TweakListOptionsFunc meta
timed options = record options { timeout_seconds = some (pos 1) }

abbrev world : World (SharedIndexInformer meta Store)
world = new_world

abbrev factory : SharedInformerFactory (VersionedInterface meta Store) (TweakListOptionsFunc meta)
factory = filtered client (pos 30) "default" (some timed)

abbrev asked_factory :
    SharedInformerFactory (VersionedInterface meta Store) (TweakListOptionsFunc meta)
unfolding informer
asked_factory = (informer (scope_of factory) factory world).1

abbrev asked_world : World (SharedIndexInformer meta Store)
unfolding informer
asked_world = (informer (scope_of factory) factory world).2

for_resource-informer_example :
    (i : SharedIndexInformer meta Store) × (get_elem?
        (start asked_factory asked_world).1.created
        (informer (scope_of factory) factory world).0
      ≡ some i)
    × (i.resync_period ≡ pos 30)
    × ((options : ListOptions meta) (s : Store)
        → i.list_watch.list_func options s
          ≡ (client "default").list (tweaked (some timed) options) s)
    × ((options : ListOptions meta) (s : Store)
        → i.list_watch.watch_func options s
          ≡ (client "default").watch (tweaked (some timed) options) s)
    × (for_resource topologyschedulingpolicies_resource
          (start asked_factory asked_world).0
          (start asked_factory asked_world).1
        ≡ (
          ok (
            (informer (scope_of factory) factory world).0,
            record { group = "scheduling.sigs.k8s.io"; resource = "topologyschedulingpolicies" },
          ),
          (start asked_factory asked_world).0,
          (start asked_factory asked_world).1,
        ))
unfolding informer asked_factory asked_world
for_resource-informer_example =
    for_resource-informer client (pos 30) "default" (some timed) world
      (start asked_factory asked_world).1 (start asked_factory asked_world).0
      topologyschedulingpolicies_resource refl (ran none_made)
