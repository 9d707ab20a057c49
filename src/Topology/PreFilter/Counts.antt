-- ===== src/Topology/PreFilter/Counts.antt =====
-- What `calculatePreFilterStateCache` computes, against a direct count over the nodes.
use super_scheduling.Prelude.{
  ℕ, ◌+◌, ◌≡◌, refl, sym, ◌∙◌, ap, Bool, true, false, ◌&&◌, Option, none, some, List, [], ◌∷◌,
  String, Map, lookup, get_elem?, get_elem?_of_lt, set, ℤ, pos, int32, add32, add32-add32,
  add32_zero, IsInt32, All-get_elem?, Returns, ◌==◌, ==_iff, string_eq, if◌then◌else◌, arith,
  Option-cases, Bool-cases, inl, inr, sum_of, any_of, all_of, eq_iff,
}
use super_scheduling.Api.Kubernetes.{Pod, Node, NodeInfo, Selector, Functions, label_value}
use super_scheduling.Api.Scheduling.{TopologyPair, topology_pair_eq}
use super_scheduling.Topology.Counters.{
  Address, Heap, view, IsValid, view_of_lookup, view_absent, view-set, set-IsValid, alloc-IsValid,
  view-alloc, add_cell_at, lookup_of_view,
}
use super_scheduling.Topology.State.Update.{add32-IsInt32}
use super_scheduling.Topology.PreFilter.{
  is_some, count_pods_match_selector, initial_pair, init_pairs, process_node, process_nodes,
}

-- The matching pods of a node, if the node's value for the key is that of the pair. A label that
-- is missing reads as the empty text.
unfoldable pub node_total : String → Selector → String → TopologyPair → NodeInfo → ℕ
node_total key selector ns pair n = elim n.node [
  | none ↦ 0
  | some node ↦
      if record { key = key; value = label_value key node.labels } == pair
      then count_pods_match_selector n.pods selector ns
      else 0
]

-- The matching pods on all nodes with the pair.
unfoldable pub total : String → Selector → String → TopologyPair → List NodeInfo → ℕ
total key selector ns pair = sum_of (node_total key selector ns pair)

unfoldable pub is_present : NodeInfo → Bool
unfolding is_some
is_present n = is_some n.node

module _ {LabelSelector : Type 0} (k8s : Functions LabelSelector) (key : String) (pod : Pod) where
  -- The node is there, fits the pod's node selector and affinity, and is labelled with the pair.
  unfoldable pub fits_pair : TopologyPair → NodeInfo → Bool
  fits_pair pair n = elim n.node [
    | none ↦ false
    | some node ↦
        k8s.pod_matches_node_selector_and_affinity_terms pod node
        && (pair.key == key
            && elim (lookup key node.labels) [ none ↦ false | some v ↦ v == pair.value ])
  ]

  fits_pair-initial :
      (pair : TopologyPair) (n : NodeInfo)
      → fits_pair pair n ≡ elim (initial_pair k8s key pod n) [ none ↦ false | some p ↦ p == pair ]
  unfolding fits_pair initial_pair
  fits_pair-initial pair n = ground (arith, eq_iff pair.key key, eq_iff key pair.key)

  pub init_pairs-view :
      (nodes : List NodeInfo) (m : Map TopologyPair Address) (h : Heap)
      → IsValid m h
      → let r : Map TopologyPair Address × Heap = init_pairs k8s key pod nodes m h in
        IsValid r.0 r.1
        × ((q : TopologyPair)
            → view r.0 r.1 q ≡ (if any_of (fits_pair q) nodes then some (pos 0) else view m h q))
  unfolding init_pairs any_of
  init_pairs-view [] m h valid = (valid, λ q. refl)
  init_pairs-view (n ∷ nodes) m h valid = elim (Option-cases (initial_pair k8s key pod n)) [
    | inl skipped ↦
        let ih = init_pairs-view nodes m h valid in
        rw (skipped, init_pairs) (ih.0, λ q. ground (arith, ih.1 q, fits_pair-initial q n, skipped))
    | inr (p, made) ↦
        let ih =
          init_pairs-view nodes _ _
            (alloc-IsValid m h valid p (pos 0) (omega arith, omega arith)) in
        rw (made, init_pairs)
          (
            ih.0,
            λ q.
                ground
                  (arith, ih.1 q, fits_pair-initial q n, made, view-alloc m h valid p (pos 0) q),
          )
  ]

-- The count under a pair that has a counter is the count before and the total of the pair's nodes.
unfoldable pub bump : Option ℤ → ℕ → Option ℤ
bump none k = none
bump (some c) k = some (add32 c (int32 (pos k)))

bump-bump : (c : Option ℤ) (a b : ℕ) → bump (bump c a) b ≡ bump c (a + b)
unfolding bump
bump-bump none a b = refl
bump-bump (some c) a b = ap some (add32-add32 c a b)

pub view-IsInt32 :
    (m : Map TopologyPair Address) (h : Heap) (q : TopologyPair) (c : ℤ)
    → IsValid m h
    → view m h q ≡ some c
    → IsInt32 c
view-IsInt32 m h q c valid seen =
    let (a, found, held) = lookup_of_view m h q c seen in
    All-get_elem? IsInt32 h a c valid.int32s held

bump_zero :
    (m : Map TopologyPair Address) (h : Heap) (q : TopologyPair)
    → IsValid m h
    → view m h q ≡ bump (view m h q) 0
unfolding bump
bump_zero m h q valid = elim (Option-cases (view m h q)) [
  | inl missing ↦ missing ∙ sym (rw (missing, bump))
  | inr (c, seen) ↦
      seen
      ∙ sym (ap (λ o. bump o 0) seen ∙ ap some (add32_zero c (view-IsInt32 m h q c valid seen)))
]

module _ (key : String) (selector : Selector) (ns : String) (m : Map TopologyPair Address) where
  -- Work on one node that is there adds the node's total to its pair's count.
  abbrev pub Adds : NodeInfo → Heap → Heap → Type 0
  Adds n h h' =
      IsValid m h'
      × ((q : TopologyPair) → view m h' q ≡ bump (view m h q) (node_total key selector ns q n))

  abbrev node_pair : Node → TopologyPair
  node_pair node = record { key = key; value = label_value key node.labels }

  node_total_at :
      (q : TopologyPair) (n : NodeInfo) (node : Node)
      → n.node ≡ some node
      → node_total key selector ns q n
        ≡ (if node_pair node == q then count_pods_match_selector n.pods selector ns else 0)
  unfolding node_total
  node_total_at q n node there = rw (there, node_total)

  -- A pair that the node does not have keeps its count.
  bump_other :
      (q : TopologyPair) (n : NodeInfo) (node : Node) (h : Heap)
      → n.node ≡ some node
      → (node_pair node == q) ≡ false
      → IsValid m h
      → view m h q ≡ bump (view m h q) (node_total key selector ns q n)
  bump_other q n node h there other valid =
      bump_zero m h q valid ∙ ap (bump (view m h q)) (sym (node_total_at q n node there ∙ rw other))

  process_node-absent :
      (n : NodeInfo) (node : Node) (h : Heap)
      → n.node ≡ some node
      → lookup (node_pair node) m ≡ none
      → IsValid m h
      → Returns (process_node key selector ns m n h) (Adds n h)
  unfolding process_node bump
  process_node-absent n node h there missing valid = (
    h,
    rw (there, process_node) (rw missing),
    (
      valid,
      λ q. elim (Bool-cases (node_pair node == q)) [
        | inl same ↦ unseen q ((==_iff (node_pair node) q).0 same)
        | inr other ↦ bump_other q n node h there other valid
      ],
    ),
  )
    where
      unseen :
          (q : TopologyPair)
          → node_pair node ≡ q
          → view m h q ≡ bump (view m h q) (node_total key selector ns q n)
      unseen q same =
          let v : view m h q ≡ none =
            view_absent m h q (ap (λ p. lookup p m) (sym same) ∙ missing) in
          v ∙ sym (ap (λ o. bump o (node_total key selector ns q n)) v)

  process_node-found :
      (n : NodeInfo) (node : Node) (h : Heap) (a : Address) (c : ℤ)
      → n.node ≡ some node
      → lookup (node_pair node) m ≡ some a
      → get_elem? h a ≡ some c
      → IsValid m h
      → Returns (process_node key selector ns m n h) (Adds n h)
  unfolding process_node bump
  process_node-found n node h a c there found held valid =
      let k = int32 (pos (count_pods_match_selector n.pods selector ns)) in
      (
        set h a (add32 c k),
        rw (there, process_node) (rw found (add_cell_at a k h c held)),
        (
          set-IsValid m h valid a (add32 c k) (add32-IsInt32 c k),
          λ q. elim (Bool-cases (node_pair node == q)) [
            | inl same ↦ added q k refl ((==_iff (node_pair node) q).0 same)
            | inr other ↦
                view-set m h valid (node_pair node) a found (add32 c k) q
                ∙ rw other (bump_other q n node h there other valid)
          ],
        ),
      )
    where
      added :
          (q : TopologyPair) (k : ℤ)
          → int32 (pos (count_pods_match_selector n.pods selector ns)) ≡ k
          → node_pair node ≡ q
          → view m (set h a (add32 c k)) q ≡ bump (view m h q) (node_total key selector ns q n)
      added q k e same =
          let t : node_total key selector ns q n ≡ count_pods_match_selector n.pods selector ns =
            node_total_at q n node there ∙ rw ((==_iff (node_pair node) q).1 same) in
          let v : view m h q ≡ some c =
            ap (view m h) (sym same) ∙ view_of_lookup m h (node_pair node) a found ∙ held in
          view-set m h valid (node_pair node) a found (add32 c k) q
          ∙ rw ((==_iff (node_pair node) q).1 same, v, t, e)

  pub process_node-view :
      (n : NodeInfo) (h : Heap)
      → is_present n ≡ true
      → IsValid m h
      → Returns (process_node key selector ns m n h) (Adds n h)
  unfolding is_present
  process_node-view n h present valid = elim (Option-cases n.node) [
    | inl missing ↦ absurd (ground arith)
    | inr (node, there) ↦ elim (Option-cases (lookup (node_pair node) m)) [
      | inl missing ↦ process_node-absent n node h there missing valid
      | inr (a, found) ↦
          let (c, held) = get_elem?_of_lt h a (valid.bounded (node_pair node) a found) in
          process_node-found n node h a c there found held valid
    ]
  ]

  pub process_nodes-view :
      (nodes : List NodeInfo) (h : Heap)
      → all_of is_present nodes ≡ true
      → IsValid m h
      → Returns (process_nodes key selector ns m nodes h) λ h'.
        IsValid m h'
        × ((q : TopologyPair) → view m h' q ≡ bump (view m h q) (total key selector ns q nodes))
  unfolding process_nodes all_of total sum_of
  process_nodes-view [] h present valid = (h, refl, (valid, λ q. bump_zero m h q valid))
  process_nodes-view (n ∷ nodes) h present valid =
      let (h₁, run₁, (valid₁, adds)) = process_node-view n h (ground arith) valid in
      let (h₂, run₂, (valid₂, views)) = process_nodes-view nodes h₁ (ground arith) valid₁ in
      (
        h₂,
        rw run₁ run₂,
        (
          valid₂,
          λ q.
              views q
              ∙ ap (λ o. bump o (sum_of (node_total key selector ns q) nodes)) (adds q)
              ∙ bump-bump _ _ _,
        ),
      )
