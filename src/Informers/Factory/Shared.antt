-- ===== src/Informers/Factory/Shared.antt =====
-- The informer of a type is made once, and every later request gets it.
use super_scheduling.Prelude.{
  ◌≡◌, refl, ◌∙◌, some, String, lookup, lookup-insert, ℤ, ◌==◌, ==_iff, ==_refl, length, false,
  string_eq, arith, Option-cases, inl, inr,
}
use super_scheduling.Informers.Factory.{
  InformerAddress, SharedInformerFactory, World, informer_for, start, Calls, none_made, asked, ran,
}

module _ {Client Tweak SharedIndexInformer : Type 0} where
  informer_for-held :
      (t : String) (new_func : Client → ℤ → SharedIndexInformer)
      (f : SharedInformerFactory Client Tweak) (w : World SharedIndexInformer) (a : InformerAddress)
      → lookup t f.informers ≡ some a
      → informer_for t new_func f w ≡ (a, f, w)
  unfolding informer_for
  informer_for-held t new_func f w a held = ground (arith, held)

  informer_for-holds :
      (t : String) (new_func : Client → ℤ → SharedIndexInformer)
      (f : SharedInformerFactory Client Tweak) (w : World SharedIndexInformer)
      → lookup t (informer_for t new_func f w).1.informers ≡ some (informer_for t new_func f w).0
  unfolding informer_for
  informer_for-holds t new_func f w = elim (Option-cases (lookup t f.informers)) [
    | inl missing ↦
        rw (missing, informer_for)
          (lookup-insert t t (length w.created) f.informers ∙ rw (==_refl t) refl)
    | inr (a, held) ↦ ground (arith, held)
  ]

  informer_for-keeps :
      (t s : String) (new_func : Client → ℤ → SharedIndexInformer)
      (f : SharedInformerFactory Client Tweak) (w : World SharedIndexInformer) (a : InformerAddress)
      → lookup t f.informers ≡ some a
      → lookup t (informer_for s new_func f w).1.informers ≡ some a
  unfolding informer_for
  informer_for-keeps t s new_func f w a held = elim (Option-cases (lookup s f.informers)) [
    | inl missing ↦
        let other : (s == t) ≡ false = ground (arith, missing, held, ==_iff s t) in
        rw (missing, informer_for)
          (lookup-insert s t (length w.created) f.informers ∙ rw other held)
    | inr (b, at) ↦ ground (arith, at, held)
  ]

  pub Calls-keep :
      (t : String) (a : InformerAddress) {f : SharedInformerFactory Client Tweak}
      {w : World SharedIndexInformer} {f' : SharedInformerFactory Client Tweak}
      {w' : World SharedIndexInformer}
      → Calls f w f' w'
      → lookup t f.informers ≡ some a
      → lookup t f'.informers ≡ some a
  unfolding start
  Calls-keep t a none_made held = held
  Calls-keep t a (asked s new_func {f'} {w'} calls) held =
      informer_for-keeps t s new_func f' w' a (Calls-keep t a calls held)
  Calls-keep t a (ran {f'} {w'} calls) held = Calls-keep t a calls held

  -- After InformerFor of a type, and any calls by any users, InformerFor of that type returns the
  -- same informer, makes none and changes nothing.
  pub informer_for-again :
      (t : String) (new_func again : Client → ℤ → SharedIndexInformer)
      (f f' : SharedInformerFactory Client Tweak) (w w' : World SharedIndexInformer)
      → Calls (informer_for t new_func f w).1 (informer_for t new_func f w).2 f' w'
      → informer_for t again f' w' ≡ ((informer_for t new_func f w).0, f', w')
  informer_for-again t new_func again f f' w w' calls =
      informer_for-held t again f' w' _ (Calls-keep t _ calls (informer_for-holds t new_func f w))
