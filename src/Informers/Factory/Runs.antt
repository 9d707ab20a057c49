-- ===== src/Informers/Factory/Runs.antt =====
-- What users of a new factory rely on: each informer runs once, and the wait reports all of them.
use super_scheduling.Prelude.{
  ◌⊎◌, ◌≤◌, ◌≡◌, refl, ◌∙◌, Bool, true, false, none, some, [], ◌∷◌, String, Map, lookup, insert,
  lookup-insert, lookup-nil, IsMap, insert-IsMap, ℤ, ==_iff, string_eq, if◌then◌else◌, arith,
  Bool-cases, inl, inr,
}
use super_scheduling.Informers.Factory.{
  InformerAddress, SharedInformerFactory, World, is_started, new_shared_informer_factory, start,
  started_only, wait_all, wait_for_cache_sync, Calls, ran,
}
use super_scheduling.Informers.Factory.Once.{times, start-started}
use super_scheduling.Informers.Factory.Invariant.{IsConsistent, Calls-IsConsistent}

abbrev pub new_world : {SharedIndexInformer : Type 0} → World SharedIndexInformer
new_world = record { created = []; runs = [] }

module _ {Client Tweak : Type 0} (client : Client) (default_resync : ℤ) where
  abbrev pub new_factory : SharedInformerFactory Client Tweak
  new_factory = new_shared_informer_factory client default_resync

  module _ {SharedIndexInformer : Type 0} where
    new_factory-IsConsistent :
        IsConsistent new_factory (new_world {SharedIndexInformer = SharedIndexInformer})
    unfolding new_shared_informer_factory times is_started IsMap
    new_factory-IsConsistent = record {
      distinct = tt;
      made = λ t a found. absurd (cc (found, lookup-nil {V = InformerAddress} t));
      unshared = λ s t a found. absurd (cc (found, lookup-nil {V = InformerAddress} s));
      held = λ t on. absurd (cc (on, lookup-nil {V = Bool} t));
      once = λ t a found. absurd (cc (found, lookup-nil {V = InformerAddress} t));
      others = λ a unheld. refl;
    }

    -- After any calls of InformerFor and Start on a new factory, no informer was set off twice, and
    -- after one more Start each informer that was requested was set off exactly once.
    pub runs_once :
        (f : SharedInformerFactory Client Tweak) (w : World SharedIndexInformer)
        → Calls new_factory new_world f w
        → (t : String) (a : InformerAddress) → lookup t f.informers ≡ some a
        → (times a w.runs ≤ 1) × (times a (start f w).1.runs ≡ 1)
    unfolding start
    runs_once f w calls t a found =
        let now = Calls-IsConsistent calls new_factory-IsConsistent in
        let later = Calls-IsConsistent (ran calls) new_factory-IsConsistent in
        let on : is_started (start f w).0.started_informers t ≡ true =
          start-started f.informers f.started_informers w.runs t ∙ rw found refl in
        let before : times a w.runs ≤ 1 = elim (Bool-cases (is_started f.started_informers t)) [
          | inl yet ↦ ground (arith, now.once t a found, yet)
          | inr no_yet ↦ ground (arith, now.once t a found, no_yet)
        ] in
        (before, later.once t a found ∙ rw on refl)

module _ (started : Map String Bool) where
  started_only-lookup :
      (rest acc : Map String InformerAddress) (t : String)
      → IsMap rest
      → lookup t (started_only rest started acc) ≡ (
          if is_started started t
          then elim (lookup t rest) [ some a ↦ some a | none ↦ lookup t acc ]
          else lookup t acc)
  unfolding started_only lookup IsMap
  started_only-lookup [] acc t distinct = ground arith
  started_only-lookup ((k, a) ∷ rest) acc t distinct =
      let next =
        started_only-lookup rest (if is_started started k then insert k a acc else acc) t
          distinct.1 in
      elim (Bool-cases (is_started started k)) [
        | inl on ↦ ground (arith, next, on, lookup-insert k t a acc, ==_iff k t, distinct.0)
        | inr off ↦ ground (arith, next, off, ==_iff k t, distinct.0)
      ]

  started_only-IsMap :
      (rest acc : Map String InformerAddress) → IsMap acc → IsMap (started_only rest started acc)
  unfolding started_only
  started_only-IsMap [] acc distinct = distinct
  started_only-IsMap ((k, a) ∷ rest) acc distinct = elim (Bool-cases (is_started started k)) [
    | inl on ↦ rw on (started_only-IsMap rest (insert k a acc) (insert-IsMap k a acc distinct))
    | inr off ↦ rw off (started_only-IsMap rest acc distinct)
  ]

module _ (synced : InformerAddress → Bool) where
  wait_all-lookup :
      (rest : Map String InformerAddress) (res : Map String Bool) (t : String)
      → IsMap rest
      → lookup t (wait_all synced rest res)
        ≡ elim (lookup t rest) [ some a ↦ some (synced a) | none ↦ lookup t res ]
  unfolding wait_all lookup IsMap
  wait_all-lookup [] res t distinct = refl
  wait_all-lookup ((k, a) ∷ rest) res t distinct = ground (
    arith,
    wait_all-lookup rest (insert k (synced a) res) t distinct.1,
    lookup-insert k t (synced a) res,
    ==_iff k t,
    distinct.0,
  )

  -- After any calls of InformerFor and Start on a new factory, the wait for the caches reports a
  -- type exactly if it was started, with what the wait for the informer of the type returned.
  pub wait-lookup :
      {Client Tweak SharedIndexInformer : Type 0} (client : Client) (default_resync : ℤ)
      (f : SharedInformerFactory Client Tweak) (w : World SharedIndexInformer)
      → Calls (new_factory client default_resync) new_world f w
      → (t : String)
      → ((is_started f.started_informers t ≡ false)
          × (lookup t (wait_for_cache_sync synced f) ≡ none))
        ⊎ ((is_started f.started_informers t ≡ true)
            × (a : InformerAddress) × (lookup t f.informers ≡ some a)
            × (lookup t (wait_for_cache_sync synced f) ≡ some (synced a)))
  unfolding wait_for_cache_sync IsMap lookup
  wait-lookup client default_resync f w calls t =
      let now = Calls-IsConsistent calls (new_factory-IsConsistent client default_resync) in
      let chosen = started_only-lookup f.started_informers f.informers [] t now.distinct in
      let waited =
        wait_all-lookup (started_only f.informers f.started_informers []) [] t
          (started_only-IsMap f.started_informers f.informers [] tt) in
      elim (Bool-cases (is_started f.started_informers t)) [
        | inl on ↦
            let (a, found) = now.held t on in
            inr (on, a, found, waited ∙ rw (chosen, on, found) refl)
        | inr off ↦ inl (off, waited ∙ rw (chosen, off) refl)
      ]
