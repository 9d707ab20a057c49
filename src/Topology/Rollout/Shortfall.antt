-- ===== src/Topology/Rollout/Shortfall.antt =====
-- The replicas that a policy lacks, for given counts.
use native.Mathlib.Decide.{dec_lt}
use super_scheduling.Prelude.{
  ℕ, ◌+◌, ◌-◌, ◌≤◌, ◌<◌, ◌≡◌, ◌≢◌, refl, sym, ◌∙◌, ap, none, some, [], ◌∷◌, String, Map, lookup,
  lookup-nil, lookup-cons, IsMap, ℤ, pos_part, ◌==◌, ==_iff, ==_refl, string_eq, if◌then◌else◌,
  arith, Bool-cases, inl, inr,
}

-- The sum over the placed values of the replicas that are missing.
unfoldable pub shortfall : (String → ℕ) → Map String ℤ → ℕ
shortfall have [] = 0
shortfall have ((value, replicas) ∷ policy) =
    (pos_part replicas - have value) + shortfall have policy

module _ (have : String → ℕ) where
  -- There is no shortfall exactly where every placed value has its replicas.
  pub met_of_shortfall :
      (policy : Map String ℤ)
      → shortfall have policy ≡ 0
      → (value : String) (replicas : ℤ) → lookup value policy ≡ some replicas
      → pos_part replicas ≤ have value
  unfolding shortfall
  met_of_shortfall [] none_lacks value replicas found = absurd (cc (lookup-nil {V = ℤ} value))
  met_of_shortfall ((k, r) ∷ policy) none_lacks value replicas found =
      elim (Bool-cases (k == value)) [
        | inl same ↦
            let e : k ≡ value = (==_iff k value).0 same in
            let q : some r ≡ some replicas = sym (lookup-cons value k r policy ∙ rw same) ∙ found in
            let w : r ≡ replicas = cc q in omega (arith, none_lacks, ap have e, ap pos_part w)
        | inr other ↦
            met_of_shortfall policy (omega (arith, none_lacks)) value replicas
              (sym (lookup-cons value k r policy ∙ rw other) ∙ found)
      ]

  pub shortfall_of_met :
      (policy : Map String ℤ)
      → IsMap policy
      → ((value : String) (replicas : ℤ)
          → lookup value policy ≡ some replicas
          → pos_part replicas ≤ have value)
      → shortfall have policy ≡ 0
  unfolding shortfall IsMap
  shortfall_of_met [] distinct met = refl
  shortfall_of_met ((k, r) ∷ policy) distinct met =
      let head = met k r (lookup-cons k k r policy ∙ rw (==_refl k) refl) in
      let rest = shortfall_of_met policy distinct.1 λ value replicas found.
        met value replicas
          (ground (arith, lookup-cons value k r policy, ==_iff k value, distinct.0)) in
      omega (arith, head, rest)

  -- Where something is lacking, a placed value lacks it.
  pub lacking :
      (policy : Map String ℤ)
      → IsMap policy
      → shortfall have policy ≢ 0
      → (value : String) × (replicas : ℤ) × (lookup value policy ≡ some replicas)
        × (have value < pos_part replicas)
  unfolding shortfall IsMap
  lacking [] distinct lacks = absurd (lacks refl)
  lacking ((k, r) ∷ policy) distinct lacks = elim (dec_lt (have k) (pos_part r)) [
    | yes short ↦ (k, r, lookup-cons k k r policy ∙ rw (==_refl k) refl, short)
    | no enough ↦
        let (value, replicas, found, short) =
          lacking policy distinct.1 λ q. lacks (omega (arith, q, enough)) in
        (
          value,
          replicas,
          ground (arith, lookup-cons value k r policy, ==_iff k value, distinct.0),
          short,
        )
  ]

  module _ (have' : String → ℕ) (v : String)
      (bump : (w : String) → have' w ≡ have w + (if v == w then 1 else 0)) where
    shortfall_elsewhere :
        (policy : Map String ℤ)
        → lookup v policy ≡ none
        → shortfall have' policy ≡ shortfall have policy
    unfolding shortfall
    shortfall_elsewhere [] missing = refl
    shortfall_elsewhere ((k, r) ∷ policy) missing = ground (
      arith,
      lookup-cons v k r policy,
      ==_iff v k,
      ==_iff k v,
      bump k,
      shortfall_elsewhere policy,
    )

    -- One more pod of a value that lacks some takes one from the shortfall.
    pub shortfall-bump :
        (policy : Map String ℤ) (r : ℤ)
        → IsMap policy
        → lookup v policy ≡ some r
        → have v < pos_part r
        → shortfall have policy ≡ shortfall have' policy + 1
    unfolding shortfall IsMap
    shortfall-bump [] r distinct found short = absurd (cc (lookup-nil {V = ℤ} v))
    shortfall-bump ((k, q) ∷ policy) r distinct found short = elim (Bool-cases (k == v)) [
      | inl same ↦
          let e : k ≡ v = (==_iff k v).0 same in
          let at_head : lookup v ((k, q) ∷ policy) ≡ some q =
            lookup-cons v k q policy ∙ rw same refl in
          let w : q ≡ r = cc (at_head, found) in
          let rest = shortfall_elsewhere policy (ap (λ x. lookup x policy) (sym e) ∙ distinct.0) in
          let up : have' k ≡ have k + 1 = bump k ∙ rw ((==_iff v k).1 (sym e)) refl in
          omega (arith, rest, up, short, ap have e, ap pos_part w)
      | inr other ↦
          let rest =
            shortfall-bump policy r distinct.1
              (sym (lookup-cons v k q policy ∙ rw other refl) ∙ found) short in
          let up : have' k ≡ have k = ground (arith, bump k, ==_iff v k, ==_iff k v) in
          omega (arith, rest, up)
    ]
