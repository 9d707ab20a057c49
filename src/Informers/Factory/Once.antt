-- ===== src/Informers/Factory/Once.antt =====
-- The loop of Start: which types it marks, and which informers it sets off.
use super_scheduling.Prelude.{
  ℕ, ◌+◌, ◌≡◌, refl, sym, ◌∙◌, ap, subst, Bool, true, false, none, some, List, [], ◌∷◌, ◌++◌,
  String, Map, lookup, insert, lookup-insert, lookup-cons, lookup-nil, IsMap, nat_beq, nat_beq_iff,
  ◌==◌, ==_iff, ==_refl, string_eq, if◌then◌else◌, arith, Bool-cases, inl, inr,
}
use super_scheduling.Informers.Factory.{InformerAddress, is_started, start_informers}

-- How often an informer was set off.
unfoldable pub times : InformerAddress → List InformerAddress → ℕ
times a [] = 0
times a (b ∷ runs) = (if nat_beq a b then 1 else 0) + times a runs

pub times-append :
    (a b : InformerAddress) (runs : List InformerAddress)
    → times a (runs ++ b ∷ []) ≡ times a runs + (if nat_beq a b then 1 else 0)
unfolding times
times-append a b [] = omega arith
times-append a b (c ∷ runs) = omega (arith, times-append a b runs)

pub is_started-insert :
    (t k : String) (started : Map String Bool)
    → is_started (insert k true started) t ≡ (if k == t then true else is_started started t)
unfolding is_started
is_started-insert t k started = elim (Bool-cases (k == t)) [
  | inl same ↦ ground (arith, lookup-insert k t true started, same)
  | inr other ↦ ground (arith, lookup-insert k t true started, other)
]

-- No two types share an informer.
abbrev pub IsUnshared : Map String InformerAddress → Type 0
IsUnshared informers =
    (s t : String) (a : InformerAddress)
    → lookup s informers ≡ some a
    → lookup t informers ≡ some a
    → s ≡ t

module _ (k : String) (b : InformerAddress) (rest : Map String InformerAddress)
    (fresh : lookup k rest ≡ none) where
  in_rest :
      (t : String) (a : InformerAddress)
      → lookup t rest ≡ some a
      → lookup t ((k, b) ∷ rest) ≡ some a
  in_rest t a found = ground (arith, lookup-cons t k b rest, fresh, found, ==_iff k t)

  rest-IsUnshared : IsUnshared ((k, b) ∷ rest) → IsUnshared rest
  rest-IsUnshared unshared s t a p q = unshared s t a (in_rest s a p) (in_rest t a q)

  -- The informer of the first entry is not that of a later one.
  head_only : IsUnshared ((k, b) ∷ rest) → (t : String) → ¬ (lookup t rest ≡ some b)
  head_only unshared t found =
      let at_head : lookup k ((k, b) ∷ rest) ≡ some b =
        lookup-cons k k b rest ∙ rw (==_refl k) refl in
      let same = unshared k t b at_head (in_rest t b found) in
      cc (subst (λ x. lookup x rest ≡ none) same fresh, found)

pub start-started :
    (rest : Map String InformerAddress) (started : Map String Bool) (runs : List InformerAddress)
    (t : String)
    → is_started (start_informers rest started runs).0 t
      ≡ elim (lookup t rest) [ some _ ↦ true | none ↦ is_started started t ]
unfolding start_informers lookup
start-started [] started runs t = refl
start-started ((k, b) ∷ rest) started runs t = elim (Bool-cases (is_started started k)) [
  | inl already ↦
      rw already (start-started rest started runs t ∙ ground (arith, already, ==_iff k t))
  | inr first ↦ rw first (
      start-started rest (insert k true started) (runs ++ b ∷ []) t
      ∙ ground (arith, is_started-insert t k started))
]

added_other :
    (a b : InformerAddress) (runs : List InformerAddress)
    → ¬ (a ≡ b)
    → times a (runs ++ b ∷ []) ≡ times a runs
added_other a b runs apart =
    let other : nat_beq a b ≡ false = ground (arith, apart) in
    times-append a b runs ∙ rw other (omega arith)

added_self :
    (a : InformerAddress) (runs : List InformerAddress)
    → times a (runs ++ a ∷ []) ≡ times a runs + 1
added_self a runs =
    let same : nat_beq a a ≡ true = (nat_beq_iff a a).1 refl in times-append a a runs ∙ rw same refl

-- An informer that no entry has is not set off.
pub start-others :
    (rest : Map String InformerAddress) (started : Map String Bool) (runs : List InformerAddress)
    (a : InformerAddress)
    → IsMap rest
    → ((t : String) → ¬ (lookup t rest ≡ some a))
    → times a (start_informers rest started runs).1 ≡ times a runs
unfolding start_informers IsMap
start-others [] started runs a distinct unheld = refl
start-others ((k, b) ∷ rest) started runs a distinct unheld =
    let later : (t : String) → ¬ (lookup t rest ≡ some a) =
      λ t found. unheld t (in_rest k b rest distinct.0 t a found) in
    let apart : ¬ (a ≡ b) =
      λ q. unheld k (lookup-cons k k b rest ∙ rw (==_refl k) (ap some (sym q))) in
    elim (Bool-cases (is_started started k)) [
      | inl already ↦ rw already (start-others rest started runs a distinct.1 later)
      | inr first ↦ rw first (
          start-others rest (insert k true started) (runs ++ b ∷ []) a distinct.1 later
          ∙ added_other a b runs apart)
    ]

-- An informer that an entry has is set off if its type was not started, and once.
pub start-once :
    (rest : Map String InformerAddress) (started : Map String Bool) (runs : List InformerAddress)
    (t : String) (a : InformerAddress)
    → IsMap rest
    → IsUnshared rest
    → lookup t rest ≡ some a
    → times a (start_informers rest started runs).1
      ≡ times a runs + (if is_started started t then 0 else 1)
unfolding start_informers IsMap
start-once [] started runs t a distinct unshared found =
    absurd (cc (lookup-nil {V = InformerAddress} t))
start-once ((k, b) ∷ rest) started runs t a distinct unshared found =
    let unshared_rest = rest-IsUnshared k b rest distinct.0 unshared in
    elim (Bool-cases (k == t)) [
      | inl same ↦
          let e : k ≡ t = (==_iff k t).0 same in
          let at_head : lookup t ((k, b) ∷ rest) ≡ some b = lookup-cons t k b rest ∙ rw same refl in
          let w : b ≡ a = cc (at_head, found) in
          let alone = head_only k b rest distinct.0 unshared in
          elim (Bool-cases (is_started started k)) [
            | inl already ↦
                let pass =
                  start-others rest started runs a distinct.1
                    (subst (λ x. (t' : String) → ¬ (lookup t' rest ≡ some x)) w alone) in
                let before : is_started started t ≡ true =
                  subst (λ x. is_started started x ≡ true) e already in
                rw already (pass ∙ rw before (omega arith))
            | inr first ↦
                let run =
                  start-others rest (insert k true started) (runs ++ a ∷ []) a distinct.1
                    (subst (λ x. (t' : String) → ¬ (lookup t' rest ≡ some x)) w alone) in
                let before : is_started started t ≡ false =
                  subst (λ x. is_started started x ≡ false) e first in
                rw (first, w) (run ∙ added_self a runs ∙ rw before refl)
          ]
      | inr other ↦
          let found' : lookup t rest ≡ some a =
            sym (lookup-cons t k b rest ∙ rw other refl) ∙ found in
          let apart : ¬ (a ≡ b) =
            λ q. head_only k b rest distinct.0 unshared t (found' ∙ ap some q) in
          elim (Bool-cases (is_started started k)) [
            | inl already ↦
                rw already (start-once rest started runs t a distinct.1 unshared_rest found')
            | inr first ↦
                let run =
                  start-once rest (insert k true started) (runs ++ b ∷ []) t a distinct.1
                    unshared_rest found' in
                let same_flag : is_started (insert k true started) t ≡ is_started started t =
                  is_started-insert t k started ∙ rw other refl in
                let same_runs = added_other a b runs apart in
                rw first (run ∙ rw (same_flag, same_runs) refl)
          ]
    ]
