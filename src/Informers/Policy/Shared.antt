-- ===== src/Informers/Policy/Shared.antt =====
-- The informer of the policies lists and watches what the factory was made for, and all ways to ask
-- for it give the same one.
use super_scheduling.Prelude.{
  ◌≡◌, refl, ◌∙◌, ap, true, Option, some, String, ℤ, ok, lookup, get_elem?, get_elem?-append_lt,
  get_elem?-append_length, lt_of_get_elem?, Option-cases, inl, inr, string_eq,
}
use super_scheduling.Client.{MetaTypes, ListOptions}
use super_scheduling.Client.Fake.{GroupVersionResource}
use super_scheduling.Informers.Factory.{
  InformerAddress, SharedInformerFactory, World, informer_for, start, resync_period, Calls,
  none_made, asked, ran, new_filtered_shared_informer_factory,
  new_shared_informer_factory_with_options, apply_options,
}
use super_scheduling.Informers.Factory.Shared.{informer_for-again}
use super_scheduling.Informers.Policy.{
  policy_type, VersionedInterface, TweakListOptionsFunc, Factory, Scope, SharedIndexInformer,
  is_policies, tweaked, v1alpha1, topology_scheduling_policies, scheduling, default_informer,
  new_filtered_topology_scheduling_policy_informer, informer, for_resource,
}

module _ {Client Tweak Informer : Type 0} where
  informer_for-created :
      (t : String) (new_func : Client → ℤ → Informer) (f : SharedInformerFactory Client Tweak)
      (w : World Informer) (a : InformerAddress) (i : Informer)
      → get_elem? w.created a ≡ some i
      → get_elem? (informer_for t new_func f w).2.created a ≡ some i
  unfolding informer_for
  informer_for-created t new_func f w a i at = elim (Option-cases (lookup t f.informers)) [
    | inl missing ↦
        rw (missing, informer_for)
          (get_elem?-append_lt w.created _ a (lt_of_get_elem? w.created a i at) ∙ at)
    | inr (b, held) ↦ rw (held, informer_for) at
  ]

  -- An informer that was made stays at its address.
  Calls-created :
      (a : InformerAddress) (i : Informer) {f : SharedInformerFactory Client Tweak}
      {w : World Informer} {f' : SharedInformerFactory Client Tweak} {w' : World Informer}
      → Calls f w f' w'
      → get_elem? w.created a ≡ some i
      → get_elem? w'.created a ≡ some i
  unfolding start
  Calls-created a i none_made at = at
  Calls-created a i (asked t new_func {f'} {w'} calls) at =
      informer_for-created t new_func f' w' a i (Calls-created a i calls at)
  Calls-created a i (ran {f'} {w'} calls) at = Calls-created a i calls at

-- The policies' part of a factory.
abbrev pub scope_of : {M : MetaTypes} {S : Type 0} → Factory M S → Scope M
scope_of f = topology_scheduling_policies (v1alpha1 (scheduling f))

module _ {M : MetaTypes} {S : Type 0} (client : VersionedInterface M S) (default_resync : ℤ)
    (namespace : String) (tweak : Option (TweakListOptionsFunc M)) where
  abbrev pub filtered : Factory M S
  filtered = new_filtered_shared_informer_factory client default_resync namespace tweak

  -- After the first Informer of a filtered factory and any calls of its methods: the informer lists
  -- and watches the factory's namespace, with its change of the list options, at its resync period,
  -- and ForResource of the policies returns it and changes nothing.
  pub for_resource-informer :
      (w w' : World (SharedIndexInformer M S)) (f' : Factory M S) (r : GroupVersionResource)
      → is_policies r ≡ true
      → Calls
          (informer (scope_of filtered) filtered w).1
          (informer (scope_of filtered) filtered w).2
          f'
          w'
      → (i : SharedIndexInformer M S) × (get_elem? w'.created
            (informer (scope_of filtered) filtered w).0
          ≡ some i)
        × (i.resync_period ≡ default_resync)
        × ((options : ListOptions M) (s : S)
            → i.list_watch.list_func options s ≡ (client namespace).list (tweaked tweak options) s)
        × ((options : ListOptions M) (s : S)
            → i.list_watch.watch_func options s
              ≡ (client namespace).watch (tweaked tweak options) s)
        × (for_resource r f' w' ≡ (
          ok (
            (informer (scope_of filtered) filtered w).0,
            record { group = r.group; resource = r.resource },
          ),
          f',
          w',
        ))
  unfolding informer informer_for new_filtered_shared_informer_factory
      new_shared_informer_factory_with_options apply_options scheduling v1alpha1 lookup for_resource
      topology_scheduling_policies default_informer new_filtered_topology_scheduling_policy_informer
      resync_period
  for_resource-informer w w' f' r known calls =
      let made = default_informer (scope_of filtered) client default_resync in
      (
        made,
        Calls-created _ made calls (get_elem?-append_length w.created made),
        refl,
        λ options s. refl,
        λ options s. refl,
        rw known (
            ap (λ (a, f, w). (ok (a, record { group = r.group; resource = r.resource }), f, w))
              (informer_for-again policy_type (default_informer (scope_of filtered))
                (default_informer (scope_of f')) filtered f' w w' calls)),
      )
