-- ===== src/Client/Agreement/Calls.antt =====
-- The calls of a policies' client, so that two clients can be compared.
use super_scheduling.Prelude.{
  false, Option, none, some, List, String, Error, Run, returns, ◌>>=◌, ◌≡◌, string_eq,
}
use super_scheduling.Client.{
  MetaTypes, ListOptions, Policy, TopologySchedulingPolicyList, TopologySchedulingPolicyInterface,
  Reply, empty_policy, empty_list,
}
use super_scheduling.Client.Server.{Blank}

-- The calls of the interface.
pub data Call (M : MetaTypes) : Type 0 where
  create_call : Policy M → M.CreateOptions → Call M
  update_call update_status_call : Policy M → M.UpdateOptions → Call M
  delete_call : String → M.DeleteOptions → Call M
  delete_collection_call : M.DeleteOptions → ListOptions M → Call M
  get_call : String → M.GetOptions → Call M
  list_call watch_call : ListOptions M → Call M
  patch_call : String → M.PatchType → M.Bytes → M.PatchOptions → List String → Call M

pub data Answer (M : MetaTypes) : Type 0 where
  policy_answer : Reply (Policy M) → Answer M
  list_answer : Reply (TopologySchedulingPolicyList M) → Answer M
  done_answer : Option Error → Answer M
  watch_answer : Reply M.WatchInterface → Answer M

-- What the client for tests returns where the other returns the second pair: the same, or nothing
-- in place of the new object that comes with an error.
pub data IsFakeReply {A : Type 0} (new : A) : Reply A → Reply A → Type 0 where
  same_object : (a : A) → IsFakeReply new (some a, none) (some a, none)
  same_error : (e : Error) → IsFakeReply new (none, some e) (some new, some e)

pub data IsFakeAnswer {M : MetaTypes} : Answer M → Answer M → Type 0 where
  policies :
      (r r' : Reply (Policy M))
      → IsFakeReply (empty_policy M) r r'
      → IsFakeAnswer (policy_answer r) (policy_answer r')
  lists :
      (r r' : Reply (TopologySchedulingPolicyList M))
      → IsFakeReply (empty_list M) r r'
      → IsFakeAnswer (list_answer r) (list_answer r')
  dones : (e : Option Error) → IsFakeAnswer (done_answer e) (done_answer e)
  watches : (r : Reply M.WatchInterface) → IsFakeAnswer (watch_answer r) (watch_answer r)

-- The call without its options, but for the selection and the watch flag of a list.
abbrev pub untimed : {M : MetaTypes} → ListOptions M → ListOptions M
untimed opts = record opts { timeout_seconds = none }

unfoldable pub bare : {M : MetaTypes} → Blank M → Call M → Call M
bare blank (create_call p _) = create_call p blank.create_options
bare blank (update_call p _) = update_call p blank.update_options
bare blank (update_status_call p _) = update_status_call p blank.update_options
bare blank (delete_call name _) = delete_call name blank.delete_options
bare blank (delete_collection_call _ list_opts) =
    delete_collection_call blank.delete_options (untimed list_opts)
bare blank (get_call name _) = get_call name blank.get_options
bare blank (list_call opts) = list_call (untimed opts)
bare blank (watch_call opts) = watch_call (untimed opts)
bare blank (patch_call name pt d _ subs) = patch_call name pt d blank.patch_options subs

unfoldable pub ended : {A B : Type 0} → (A → B) → Run A → Run B
ended f r = r >>= λ a. returns (f a)

-- A list is not called with the watch flag set.
unfoldable pub IsPlain : {M : MetaTypes} → Call M → Type 0
IsPlain (list_call opts) = opts.watch ≡ false
IsPlain _ = Unit

module _ {M : MetaTypes} {S : Type 0} where
  unfoldable pub policy_end : Reply (Policy M) × S → Answer M × S
  policy_end (r, s) = (policy_answer r, s)

  unfoldable pub list_end : Reply (TopologySchedulingPolicyList M) × S → Answer M × S
  list_end (r, s) = (list_answer r, s)

  unfoldable pub done_end : Option Error × S → Answer M × S
  done_end (e, s) = (done_answer e, s)

  unfoldable pub watch_end : Reply M.WatchInterface × S → Answer M × S
  watch_end (r, s) = (watch_answer r, s)

  unfoldable pub make : TopologySchedulingPolicyInterface M S → Call M → S → Run (Answer M × S)
  unfolding policy_end list_end done_end watch_end ended
  make c (create_call p opts) s = ended policy_end (c.create p opts s)
  make c (update_call p opts) s = ended policy_end (c.update p opts s)
  make c (update_status_call p opts) s = ended policy_end (c.update_status p opts s)
  make c (delete_call name opts) s = ended done_end (c.delete name opts s)
  make c (delete_collection_call opts list_opts) s =
      ended done_end (c.delete_collection opts list_opts s)
  make c (get_call name opts) s = ended policy_end (c.get name opts s)
  make c (list_call opts) s = ended list_end (c.list opts s)
  make c (watch_call opts) s = ended watch_end (c.watch opts s)
  make c (patch_call name pt d opts subs) s = ended policy_end (c.patch name pt d opts subs s)
