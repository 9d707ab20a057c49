-- ===== src/Api/Kubernetes.antt =====
-- Kubernetes objects with the fields that the repository reads, and the interfaces of Kubernetes
-- that it calls. None of this is code of the repository.
use super_scheduling.Prelude.{
  Bool, true, Option, List, String, Map, Result, lookup, some, none, ℕ, string_eq,
}

abbrev pub Labels : Type 0
Labels = Map String String

-- `labels[key]`: the empty text where the key is missing.
unfoldable pub label_value : String → Labels → String
label_value key labels = elim (lookup key labels) [ none ↦ "" | some v ↦ v ]

-- v1.PodPhase
pub data PodPhase : Type 0 where
  pending running succeeded failed unknown : PodPhase

pub record Pod : Type 0 where
  pub name : String
  pub namespace : String
  pub labels : Labels
  -- none is Go's nil
  pub annotations : Option (Map String String)
  pub deletion_timestamp : Option ℕ
  pub node_name : String
  pub phase : PodPhase

pub record Node : Type 0 where
  pub name : String
  pub labels : Labels

-- framework.NodeInfo: `Node()` may be nil, and so may an entry of `Pods`.
pub record NodeInfo : Type 0 where
  pub node : Option Node
  pub pods : List (Option Pod)

-- labels.Selector, of which the code calls one method.
pub record Selector : Type 0 where
  pub matches : Labels → Bool

-- labels.Everything()
abbrev pub everything : Selector
everything = record { matches = λ _. true }

-- Functions of Kubernetes' packages; `LabelSelector` is metav1.LabelSelector.
pub record Functions (LabelSelector : Type 0) : Type 0 where
  -- metav1.LabelSelectorAsSelector, of a pointer that may be nil
  pub label_selector_as_selector : Option LabelSelector → Result Selector
  -- metav1.FormatLabelSelector
  pub format_label_selector : Option LabelSelector → String
  -- helper.PodMatchesNodeSelectorAndAffinityTerms
  pub pod_matches_node_selector_and_affinity_terms : Pod → Node → Bool
