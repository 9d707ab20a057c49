-- ===== src/Topology/State/Update.antt =====
-- `updateWithPod`: which counter it changes, and that the opposite update undoes it.
use super_scheduling.Prelude.{
  ◌≡◌, refl, ap, subst, ◌↔◌, get_elem?_of_lt, true, Option, none, some, String, lookup, ℤ, pos,
  negsuc, add32, IsInt32, int32-IsInt32, set, returns, panics, Returns, ◌==◌, ==_iff, string_eq,
  if◌then◌else◌, arith, All, Option-cases, inl, inr, ◌∙◌,
}
use super_scheduling.Api.Kubernetes.{Pod, Node}
use super_scheduling.Api.Scheduling.{TopologyPair, topology_pair_eq}
use super_scheduling.Topology.Counters.{
  Heap, add_cell, view, IsValid, lookup_of_view, add_cell_at, add_cell_undo, view-set, set-IsValid,
}
use super_scheduling.Topology.State.{PreFilterState, update_with_pod}

pub add32-IsInt32 : (a b : ℤ) → IsInt32 (add32 a b)
unfolding add32
add32-IsInt32 a b = int32-IsInt32 _

-- The pod is in the preemptor's namespace and matches the selector, and the node has the value `v`
-- for the topology key: the pod counts for the pair of the key and `v`.
pub record IsCounted (s : PreFilterState) (updated preemptor : Pod) (node : Node) (v : String)
    : Type 0 where
  pub namespace : updated.namespace ≡ preemptor.namespace
  pub labelled : lookup s.constraint.topology_key node.labels ≡ some v
  pub matches : s.constraint.selector.matches updated.labels ≡ true

abbrev pub pair_of : PreFilterState → String → TopologyPair
pair_of s v = record { key = s.constraint.topology_key; value = v }

module _ (s : PreFilterState) (updated preemptor : Pod) (node : Node) (v : String) (delta : ℤ)
    (h : Heap) (counted : IsCounted s updated preemptor node v) where
  -- For a counted pod the call is `*m[pair] += delta`.
  pub update_counted :
      update_with_pod (some s) updated preemptor (some node) delta h
      ≡ add_cell (lookup (pair_of s v) s.tp_pair_to_match_num) delta h
  unfolding update_with_pod
  update_counted = ground (
    arith,
    counted.namespace,
    counted.labelled,
    counted.matches,
    ==_iff updated.namespace preemptor.namespace,
  )

  -- For a counted pod whose pair has the count `c` the call returns, the pair's count becomes
  -- `c + delta` with the wrap-around of `int32`, no other count changes, and the state stays valid.
  pub update_with_pod-view :
      IsValid s.tp_pair_to_match_num h
      → (c : ℤ) → view s.tp_pair_to_match_num h (pair_of s v) ≡ some c
      → Returns (update_with_pod (some s) updated preemptor (some node) delta h) λ h'.
        IsValid s.tp_pair_to_match_num h'
        × ((q : TopologyPair)
            → view s.tp_pair_to_match_num h' q ≡ (
                if pair_of s v == q then some (add32 c delta) else view s.tp_pair_to_match_num h q))
  update_with_pod-view valid c seen =
      let (a, found, held) = lookup_of_view s.tp_pair_to_match_num h (pair_of s v) c seen in
      (
        set h a (add32 c delta),
        update_counted ∙ ap (λ p. add_cell p delta h) found ∙ add_cell_at a delta h c held,
        (
          set-IsValid s.tp_pair_to_match_num h valid a (add32 c delta) (add32-IsInt32 c delta),
          view-set s.tp_pair_to_match_num h valid (pair_of s v) a found (add32 c delta),
        ),
      )

  update_counted-panics_iff :
      IsValid s.tp_pair_to_match_num h
      → (update_with_pod (some s) updated preemptor (some node) delta h ≡ panics)
        ↔ (lookup (pair_of s v) s.tp_pair_to_match_num ≡ none)
  unfolding add_cell
  update_counted-panics_iff valid =
      elim (Option-cases (lookup (pair_of s v) s.tp_pair_to_match_num)) [
        | inl missing ↦ (λ _. missing, λ _. update_counted ∙ rw (missing, add_cell))
        | inr (a, found) ↦
            let (c, held) = get_elem?_of_lt h a (valid.bounded (pair_of s v) a found) in
            let added : update_with_pod (some s) updated preemptor (some node) delta h
                ≡ returns (set h a (add32 c delta)) =
              update_counted ∙ ap (λ p. add_cell p delta h) found ∙ add_cell_at a delta h c held in
            (λ e. absurd (cc (added, e)), λ missing. absurd (cc (found, missing)))
      ]

module _ (s : PreFilterState) (updated preemptor : Pod) (delta : ℤ) (h : Heap) where
  -- With valid counters the call panics exactly when there is a node, the pod is in the preemptor's
  -- namespace and matches the selector, and the node has a value for the topology key whose pair
  -- has no counter: in every other case it returns.
  pub update_with_pod-panics_iff :
      (n : Option Node)
      → IsValid s.tp_pair_to_match_num h
      → (update_with_pod (some s) updated preemptor n delta h ≡ panics) ↔ (
          (node : Node) × (v : String) × (n ≡ some node)
          × IsCounted s updated preemptor node v
          × (lookup (pair_of s v) s.tp_pair_to_match_num ≡ none))
  unfolding update_with_pod
  update_with_pod-panics_iff none valid = (λ e. cc e, λ (node, v, there, _, _). cc there)
  update_with_pod-panics_iff (some node) valid = (
    λ e. elim (Option-cases (lookup s.constraint.topology_key node.labels)) [
      | inl missing ↦ absurd (ground (arith, e, missing))
      | inr (v, found) ↦
          let counted : IsCounted s updated preemptor node v = record {
            namespace = ground (arith, e, ==_iff updated.namespace preemptor.namespace);
            labelled = found;
            matches = ground (arith, e, found);
          } in
          (
            node,
            v,
            refl,
            counted,
            (update_counted-panics_iff s updated preemptor node v delta h counted valid).0 e,
          )
    ],
    λ (node', v, there, counted, missing).
        let same : node' ≡ node = cc there in
        subst (λ x. update_with_pod (some s) updated preemptor (some x) delta h ≡ panics) same
          ((update_counted-panics_iff s updated preemptor node' v delta h counted valid).1 missing),
  )

-- Whatever the receiver, the pods and the node: if the update by 1 returns, then the update by -1
-- returns too and restores the heap.
pub update_with_pod_undo :
    (s : Option PreFilterState) (updated preemptor : Pod) (n : Option Node) (h h' : Heap)
    → All IsInt32 h
    → update_with_pod s updated preemptor n (pos 1) h ≡ returns h'
    → update_with_pod s updated preemptor n (negsuc 0) h' ≡ returns h
unfolding update_with_pod
update_with_pod_undo none updated preemptor n h h' fits run = cc
update_with_pod_undo (some s) updated preemptor none h h' fits run = cc
update_with_pod_undo (some s) updated preemptor (some node) h h' fits run =
    elim (Option-cases (lookup s.constraint.topology_key node.labels)) [
      | inl missing ↦ ground arith
      | inr (v, found) ↦
          ground (arith, add_cell_undo (lookup (pair_of s v) s.tp_pair_to_match_num) h h' fits)
    ]
