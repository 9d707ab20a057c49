-- ===== src/Client.antt =====
-- pkg/generated/clientset: the interface of the policies' client. Its implementations are
-- Client/Typed, which sends requests to a server, and Client/Fake, which records actions for tests.
pub mod Typed
pub mod Timeout
pub mod Fake
pub mod Server
pub mod Agreement
pub mod Clientset
use super_scheduling.Prelude.{Bool, Option, List, [], none, String, ℤ, Error, Run}
use super_scheduling.Api.Scheduling.{
  TopologySchedulingPolicy, TopologySchedulingPolicySpec, TopologySchedulingPolicyStatus,
}

-- The types of the Kubernetes libraries that pass through the client unread. `Selection` is what
-- ListOptions holds next to the timeout and the watch flag.
pub record MetaTypes : Type 1 where
  pub GetOptions : Type 0
  pub CreateOptions : Type 0
  pub UpdateOptions : Type 0
  pub DeleteOptions : Type 0
  pub PatchOptions : Type 0
  pub PatchType : Type 0
  pub Bytes : Type 0
  pub Selection : Type 0
  pub ListMeta : Type 0
  pub empty_list_meta : ListMeta
  pub LabelSelector : Type 0
  pub WatchInterface : Type 0
  pub OtherObject : Type 0

-- metav1.ListOptions.
pub record ListOptions (M : MetaTypes) : Type 0 where
  pub timeout_seconds : Option ℤ
  pub watch : Bool
  pub selection : M.Selection

abbrev pub Policy : MetaTypes → Type 0
Policy M = TopologySchedulingPolicy M.LabelSelector

pub record TopologySchedulingPolicyList (M : MetaTypes) : Type 0 where
  pub list_meta : M.ListMeta
  pub items : List (Policy M)

-- `&TopologySchedulingPolicy{}` and `&TopologySchedulingPolicyList{}`.
abbrev pub empty_policy : (M : MetaTypes) → Policy M
empty_policy M = record {
  name = "";
  namespace = "";
  spec = record {
    topology_key = "";
    schedule_strategy = "";
    deploy_placement = [];
    update_placement = [];
    label_selector = none;
  };
  status = record { placement = [] };
}

abbrev pub empty_list : (M : MetaTypes) → TopologySchedulingPolicyList M
empty_list M = record { list_meta = M.empty_list_meta; items = [] }

-- Go's `(object, error)` with a pointer that may be nil.
abbrev pub Reply : Type 0 → Type 0
Reply A = Option A × Option Error

-- The methods change the state `S` behind the client; a method that panics does not return.
pub record TopologySchedulingPolicyInterface (M : MetaTypes) (S : Type 0) : Type 0 where
  pub create : Policy M → M.CreateOptions → S → Run (Reply (Policy M) × S)
  pub update : Policy M → M.UpdateOptions → S → Run (Reply (Policy M) × S)
  pub update_status : Policy M → M.UpdateOptions → S → Run (Reply (Policy M) × S)
  pub delete : String → M.DeleteOptions → S → Run (Option Error × S)
  pub delete_collection : M.DeleteOptions → ListOptions M → S → Run (Option Error × S)
  pub get : String → M.GetOptions → S → Run (Reply (Policy M) × S)
  pub list : ListOptions M → S → Run (Reply (TopologySchedulingPolicyList M) × S)
  pub watch : ListOptions M → S → Run (Reply M.WatchInterface × S)
  pub patch :
      String → M.PatchType → M.Bytes → M.PatchOptions → List String → S → Run (Reply (Policy M) × S)
