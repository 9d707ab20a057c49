-- ===== src/Informers/Factory/Invariant.antt =====
-- Whatever is called in whatever order, no informer runs twice, and after Start each one runs.
use super_scheduling.Prelude.{
  ℕ, ◌+◌, ◌<◌, ◌≡◌, refl, sym, ◌∙◌, subst, Bool, true, false, none, some, [], ◌∷◌, ◌++◌, String,
  lookup, insert, lookup-insert, IsMap, insert-IsMap, ℤ, length, length-append, ◌==◌, ==_iff,
  string_eq, if◌then◌else◌, arith, Option-cases, Bool-cases, inl, inr,
}
use super_scheduling.Informers.Factory.{
  InformerAddress, SharedInformerFactory, World, is_started, informer_for, start_informers, start,
  Calls, none_made, asked, ran,
}
use super_scheduling.Informers.Factory.Once.{
  times, IsUnshared, start-started, start-once, start-others,
}

-- The informers are under distinct types and are made and not shared; what was set off is an
-- informer of a started type, once; and a started type has an informer.
pub record IsConsistent {Client Tweak SharedIndexInformer : Type 0}
    (f : SharedInformerFactory Client Tweak) (w : World SharedIndexInformer) : Type 0 where
  pub distinct : IsMap f.informers
  pub made :
      (t : String) (a : InformerAddress) → lookup t f.informers ≡ some a → a < length w.created
  pub unshared : IsUnshared f.informers
  pub held :
      (t : String)
      → is_started f.started_informers t ≡ true
      → (a : InformerAddress) × (lookup t f.informers ≡ some a)
  pub once :
      (t : String) (a : InformerAddress)
      → lookup t f.informers ≡ some a
      → times a w.runs ≡ (if is_started f.started_informers t then 1 else 0)
  pub others :
      (a : InformerAddress)
      → ((t : String) → ¬ (lookup t f.informers ≡ some a))
      → times a w.runs ≡ 0

filled : (b : Bool) (n : ℕ) → n ≡ (if b then 1 else 0) → n + (if b then 0 else 1) ≡ 1
filled true n e = omega (arith, e)
filled false n e = omega (arith, e)

module _ {Client Tweak SharedIndexInformer : Type 0} where
  unmarked :
      (f : SharedInformerFactory Client Tweak) (w : World SharedIndexInformer) (t : String)
      {b : Bool}
      → lookup t f.informers ≡ none
      → b ≡ elim (lookup t f.informers) [ some _ ↦ true | none ↦ is_started f.started_informers t ]
      → b ≡ is_started f.started_informers t
  unmarked f w t missing e = e ∙ rw missing refl

  start-IsConsistent :
      (f : SharedInformerFactory Client Tweak) (w : World SharedIndexInformer)
      → IsConsistent f w
      → IsConsistent (start f w).0 (start f w).1
  unfolding start
  start-IsConsistent f w c =
      let marks = start-started f.informers f.started_informers w.runs in
      record {
        distinct = c.distinct;
        made = c.made;
        unshared = c.unshared;
        held = λ t is_on. elim (Option-cases (lookup t f.informers)) [
          | inl missing ↦ c.held t (sym (unmarked f w t missing (marks t)) ∙ is_on)
          | inr found ↦ found
        ];
        once = λ t a found.
            let here : is_started (start_informers f.informers f.started_informers w.runs).0 t
                ≡ true =
              marks t ∙ rw found refl in
            let runs =
              start-once f.informers f.started_informers w.runs t a c.distinct c.unshared found in
            rw here (
              runs ∙ filled (is_started f.started_informers t) (times a w.runs) (c.once t a found));
        others = λ a unheld.
            start-others f.informers f.started_informers w.runs a c.distinct unheld
            ∙ c.others a unheld;
      }

  module _ (f : SharedInformerFactory Client Tweak) (w : World SharedIndexInformer)
      (c : IsConsistent f w) (k : String) (missing : lookup k f.informers ≡ none)
      (new : SharedIndexInformer) where
    abbrev fresh : InformerAddress
    fresh = length w.created

    new_lookup :
        (t : String)
        → lookup t (insert k fresh f.informers)
          ≡ (if k == t then some fresh else lookup t f.informers)
    new_lookup t = lookup-insert k t fresh f.informers

    unused : (t : String) → ¬ (lookup t f.informers ≡ some fresh)
    unused t found = omega (arith, c.made t fresh found)

    not_started : is_started f.started_informers k ≡ false
    not_started = elim (Bool-cases (is_started f.started_informers k)) [
      | inl on ↦ absurd (cc (missing, (c.held k on).1))
      | inr off ↦ off
    ]

    added-IsConsistent :
        IsConsistent
          (record f { informers = insert k fresh f.informers })
          (record w { created = w.created ++ new ∷ [] })
    added-IsConsistent = record {
      distinct = insert-IsMap k fresh f.informers c.distinct;
      made = λ t a found.
          ground (arith, new_lookup t, found, c.made t a, length-append w.created (new ∷ []));
      unshared = λ s t a p q. ground (
        arith,
        new_lookup s,
        new_lookup t,
        p,
        q,
        c.unshared s t a,
        unused s,
        unused t,
        ==_iff k s,
        ==_iff k t,
      );
      held = λ t on. elim (Bool-cases (k == t)) [
        | inl same ↦ (fresh, new_lookup t ∙ rw same refl)
        | inr other ↦ let (a, found) = c.held t on in (a, new_lookup t ∙ rw other found)
      ];
      once = λ t a found. elim (Bool-cases (k == t)) [
        | inl same ↦
            let here : lookup t (insert k fresh f.informers) ≡ some fresh =
              new_lookup t ∙ rw same refl in
            let e : fresh ≡ a = cc (here, found) in
            let off : is_started f.started_informers t ≡ false =
              subst (λ x. is_started f.started_informers x ≡ false) ((==_iff k t).0 same)
                not_started in
            rw (off, ← e) (c.others fresh unused)
        | inr other ↦
            let here : lookup t (insert k fresh f.informers) ≡ lookup t f.informers =
              new_lookup t ∙ rw other refl in
            c.once t a (sym here ∙ found)
      ];
      others = λ a unheld.
          c.others a λ t found. unheld t (ground (arith, new_lookup t, found, missing, ==_iff k t));
    }

  informer_for-IsConsistent :
      (k : String) (new_func : Client → ℤ → SharedIndexInformer)
      (f : SharedInformerFactory Client Tweak) (w : World SharedIndexInformer)
      → IsConsistent f w
      → IsConsistent (informer_for k new_func f w).1 (informer_for k new_func f w).2
  unfolding informer_for
  informer_for-IsConsistent k new_func f w c = elim (Option-cases (lookup k f.informers)) [
    | inl missing ↦ rw (missing, informer_for) (added-IsConsistent f w c k missing _)
    | inr (a, found) ↦ rw (found, informer_for) c
  ]

  -- Any calls of InformerFor and Start keep the factory consistent.
  pub Calls-IsConsistent :
      {f : SharedInformerFactory Client Tweak} {w : World SharedIndexInformer}
      {f' : SharedInformerFactory Client Tweak} {w' : World SharedIndexInformer}
      → Calls f w f' w'
      → IsConsistent f w
      → IsConsistent f' w'
  Calls-IsConsistent none_made c = c
  Calls-IsConsistent (asked t new_func {f'} {w'} calls) c =
      informer_for-IsConsistent t new_func f' w' (Calls-IsConsistent calls c)
  Calls-IsConsistent (ran {f'} {w'} calls) c = start-IsConsistent f' w' (Calls-IsConsistent calls c)
