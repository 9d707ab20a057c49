-- ===== src/Api/Labels.antt =====
-- Reads of the labels of an object: a key that is missing reads as the empty text.
use super_scheduling.Prelude.{
  ◌≡◌, ◌↔◌, ◌⊎◌, none, some, String, lookup, string_eq, arith, Option-cases, inl, inr,
}
use super_scheduling.Api.Kubernetes.{Labels, label_value}

-- The labels have the value under the key, or nothing is there and the value is the empty text.
abbrev pub IsLabelled : String → Labels → String → Type 0
IsLabelled key labels value =
    (lookup key labels ≡ some value) ⊎ ((lookup key labels ≡ none) × (value ≡ ""))

pub label_value_iff :
    (key : String) (labels : Labels) (value : String)
    → (label_value key labels ≡ value) ↔ IsLabelled key labels value
unfolding label_value
label_value_iff key labels value = elim (Option-cases (lookup key labels)) [
  | inl missing ↦ ground (arith, missing)
  | inr (v, found) ↦ ground (arith, found)
]
