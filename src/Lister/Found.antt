-- ===== src/Lister/Found.antt =====
-- What the lister finds in the indexer.
use Prim.Native.String.{◌++◌ as string_append}
use super_scheduling.Prelude.{
  ◌≡◌, sym, ◌∙◌, ap, ◌↔◌, ◌⊎◌, Option, none, some, List, [], ◌∷◌, ◌++◌, String, Error, ok, err,
  arith, Result-cases, Option-cases, inl, inr,
}
use mathlib.Core.List.{append_assoc, append-nil}
use super_scheduling.Api.Kubernetes.{Selector}
use super_scheduling.Api.Scheduling.{TopologySchedulingPolicy}
use super_scheduling.Lister.{
  Indexer, key_of, append_all, collect, list_namespace_policies, get_policy,
  new_topology_scheduling_policy_lister,
}

append_all_lem {ℓ} : {A : Type ℓ} (ret objects : List A) → append_all ret objects ≡ ret ++ objects
unfolding append_all
append_all_lem ret [] = sym (append-nil ret)
append_all_lem ret (m ∷ objects) =
    append_all_lem (ret ++ m ∷ []) objects ∙ append_assoc ret (m ∷ []) objects

collect_iff :
    {Policy : Type 0} (visits : List Policy × Option Error) (tsps : List Policy)
    → (collect visits ≡ ok tsps) ↔ (visits ≡ (tsps, none))
unfolding collect
collect_iff (objects, none) tsps = (
  λ e. let same : objects ≡ tsps = cc (append_all_lem [] objects, e) in ap (λ o. (o, none)) same,
  λ e. ap ok (append_all_lem [] objects ∙ ap (λ v. v.0) e),
)
collect_iff (objects, some e) tsps = (λ q. cc q, λ q. cc (ap (λ v. v.1) q))

collect-err_iff :
    {Policy : Type 0} (visits : List Policy × Option Error) (e : Error)
    → (collect visits ≡ err e) ↔ (visits.1 ≡ some e)
unfolding collect
collect-err_iff (objects, none) e = (λ q. cc q, λ q. cc q)
collect-err_iff (objects, some e') e = ground arith

module _ {LabelSelector : Type 0} (indexer : Indexer (TopologySchedulingPolicy LabelSelector))
    (namespace name : String) where
  get_policy_iff :
      (tsp : TopologySchedulingPolicy LabelSelector)
      → (get_policy indexer namespace name ≡ ok tsp)
        ↔ (indexer.get_by_key (key_of namespace name) ≡ ok (some tsp))
  unfolding get_policy
  get_policy_iff tsp = elim (Result-cases (indexer.get_by_key (key_of namespace name))) [
    | inl (e, failed) ↦ ground arith
    | inr (obj, found) ↦ elim (Option-cases obj) [
      | inl missing ↦ ground arith
      | inr (t, there) ↦ ground arith
    ]
  ]

  get_policy-err_iff :
      (e : Error)
      → (get_policy indexer namespace name ≡ err e) ↔ (
          (indexer.get_by_key (key_of namespace name) ≡ err e)
          ⊎ ((indexer.get_by_key (key_of namespace name) ≡ ok none) × (e ≡ indexer.not_found name)))
  unfolding get_policy
  get_policy-err_iff e = elim (Result-cases (indexer.get_by_key (key_of namespace name))) [
    | inl (e', failed) ↦ ground arith
    | inr (obj, found) ↦ elim (Option-cases obj) [
      | inl missing ↦ ground arith
      | inr (t, there) ↦ ground arith
    ]
  ]

  -- For every selector the lister lists for a namespace exactly the objects that the indexer visits
  -- for the namespace and the selector, in their order, and fails with the error at the end of the
  -- visits where there is one. It gets exactly the object under the key of the namespace, a slash
  -- and the name, and fails with the indexer's error, or with the error that the name is not found
  -- where no object has the key.
  pub lister_iff :
      ((selector : Selector) (tsps : List (TopologySchedulingPolicy LabelSelector))
        → ((new_topology_scheduling_policy_lister indexer).list namespace selector ≡ ok tsps)
          ↔ (indexer.list_all_by_namespace namespace selector ≡ (tsps, none)))
      × ((selector : Selector) (e : Error)
          → ((new_topology_scheduling_policy_lister indexer).list namespace selector ≡ err e)
            ↔ ((indexer.list_all_by_namespace namespace selector).1 ≡ some e))
      × ((tsp : TopologySchedulingPolicy LabelSelector)
          → ((new_topology_scheduling_policy_lister indexer).get namespace name ≡ ok tsp) ↔ (
              indexer.get_by_key (string_append namespace (string_append "/" name))
              ≡ ok (some tsp)))
      × ((e : Error)
          → ((new_topology_scheduling_policy_lister indexer).get namespace name ≡ err e) ↔ (
              (indexer.get_by_key (string_append namespace (string_append "/" name)) ≡ err e)
              ⊎ ((indexer.get_by_key (string_append namespace (string_append "/" name)) ≡ ok none)
                  × (e ≡ indexer.not_found name))))
  unfolding new_topology_scheduling_policy_lister list_namespace_policies
  lister_iff = (
    λ selector tsps. collect_iff (indexer.list_all_by_namespace namespace selector) tsps,
    λ selector e. collect-err_iff (indexer.list_all_by_namespace namespace selector) e,
    get_policy_iff,
    get_policy-err_iff,
  )
