-- ===== src/Client/Agreement/Replies.antt =====
-- What the methods of the two clients return for an answer of what is behind them.
use super_scheduling.Prelude.{
  true, Option, none, some, List, [], ◌∷◌, ◌++◌, String, Error, Result, ok, err, returns, ◌≡◌, refl,
  sym, ◌∙◌, All, string_eq, ◌⊎◌, inl, inr,
}
use mathlib.Core.List.{append_assoc, append-nil}
use super_scheduling.Api.Kubernetes.{Selector}
use super_scheduling.Client.{
  MetaTypes, ListOptions, Policy, TopologySchedulingPolicyList, empty_policy, empty_list,
}
use super_scheduling.Client.Typed.{Request, into_policy, into_list, RestClient}
use super_scheduling.Client.Fake.{
  topologyschedulingpolicies_resource, topologyschedulingpolicies_kind, Action, new_list_action,
  policy_object, list_object, as_policy, as_list, fake_policy, fake_list, Testing, matching,
  label_of,
}

-- The action of a listing.
abbrev pub listed : {M : MetaTypes} → String → ListOptions M → Action M
listed ns opts =
    new_list_action topologyschedulingpolicies_resource topologyschedulingpolicies_kind ns opts

pub served :
    {A S : Type 0} (x : Result A × S)
    → ((e : Error) × (s : S) × (x ≡ (err e, s))) ⊎ ((a : A) × (s : S) × (x ≡ (ok a, s)))
served (err e, s) = inl (e, s, refl)
served (ok a, s) = inr (a, s, refl)

module _ {M : MetaTypes} {S : Type 0} where
  pub matching-All :
      (fake : Testing M S) (label : Selector) (items rest : List (Policy M))
      → All (λ p. label.matches (fake.labels p) ≡ true) rest
      → matching fake label items rest ≡ items ++ rest
  unfolding matching
  matching-All fake label items [] h = sym (append-nil items)
  matching-All fake label items (p ∷ rest) h =
      rw h.0 (matching-All fake label (items ++ p ∷ []) rest h.1 ∙ append_assoc items (p ∷ []) rest)

  pub fake_policy-none :
      (fake : Testing M S) (action : Action M) (s : S) (e : Option Error) (s' : S)
      → fake.invokes action (policy_object (empty_policy M)) s ≡ ((none, e), s')
      → fake_policy fake action s ≡ returns ((none, e), s')
  unfolding fake_policy
  fake_policy-none fake action s e s' h = rw (fake_policy, h, h) refl

  pub fake_policy-some :
      (fake : Testing M S) (action : Action M) (s : S) (p : Policy M) (e : Option Error) (s' : S)
      → fake.invokes action (policy_object (empty_policy M)) s ≡ ((some (policy_object p), e), s')
      → fake_policy fake action s ≡ returns ((some p, e), s')
  unfolding fake_policy as_policy
  fake_policy-some fake action s p e s' h = rw (fake_policy, h, h) refl

  pub into_policy_lem :
      (client : RestClient M S) (r : Request M) (s : S) (p : Policy M) (e : Option Error) (s' : S)
      → client.do_into r (empty_policy M) s ≡ ((p, e), s')
      → into_policy client r s ≡ returns ((some p, e), s')
  unfolding into_policy
  into_policy_lem client r s p e s' h = rw (into_policy, h) refl

  pub into_list_lem :
      (client : RestClient M S) (r : Request M) (s : S) (l : TopologySchedulingPolicyList M)
      (e : Option Error) (s' : S)
      → client.do_list_into r (empty_list M) s ≡ ((l, e), s')
      → into_list client r s ≡ returns ((some l, e), s')
  unfolding into_list
  into_list_lem client r s l e s' h = rw (into_list, h) refl

  pub fake_list-none :
      (fake : Testing M S) (ns : String) (opts : ListOptions M) (s : S) (e : Option Error) (s' : S)
      → fake.invokes (listed ns opts) (list_object (empty_list M)) s ≡ ((none, e), s')
      → fake_list fake ns opts s ≡ returns ((none, e), s')
  unfolding fake_list
  fake_list-none fake ns opts s e s' h = rw (fake_list, h, h) refl

  -- The items that the label matches stay, here all of them.
  pub fake_list-some :
      (fake : Testing M S) (ns : String) (opts : ListOptions M) (s : S)
      (l : TopologySchedulingPolicyList M) (s' : S)
      → fake.invokes (listed ns opts) (list_object (empty_list M)) s
        ≡ ((some (list_object l), none), s')
      → All (λ p. (label_of fake opts).matches (fake.labels p) ≡ true) l.items
      → fake_list fake ns opts s ≡ returns ((some l, none), s')
  unfolding fake_list as_list
  fake_list-some fake ns opts s l s' h selects =
      rw (fake_list, h, h) (rw (matching-All fake (label_of fake opts) [] l.items selects) refl)
