-- ===== src/Topology/State/Clone.antt =====
-- `Clone`: the copy reads the same counts through cells of its own.
use super_scheduling.Prelude.{
  ◌≢◌, ℕ, ◌+◌, ◌<◌, ◌≤◌, ◌≡◌, refl, sym, ◌∙◌, none, some, [], ◌∷◌, ◌++◌, Map, lookup, insert,
  lookup-insert, lookup-cons, lookup-nil, IsMap, insert-IsMap, ℤ, IsInt32, All, All-append,
  All-get_elem?, get_elem?, length, length-append, get_elem?-append_lt, get_elem?-append_length,
  get_elem?_of_lt, Returns, ◌==◌, ==_iff, ==_refl, if◌then◌else◌, arith, Option-cases, inl, inr,
}
use super_scheduling.Api.Scheduling.{TopologyPair, topology_pair_eq}
use super_scheduling.Topology.Counters.{Address, Heap, view, IsValid, view_of_lookup, view_absent}
use super_scheduling.Topology.State.{PreFilterState, clone_counts, clone}

abbrev Counts : Type 0
Counts = Map TopologyPair Address

-- A copy under construction, over a heap whose first `start` cells are the original's.
record IsCopy (start : ℕ) (copy : Counts) (h : Heap) : Type 0 where
  distinct : IsMap copy
  fresh : (k : TopologyPair) (a : Address) → lookup k copy ≡ some a → (start ≤ a) × (a < length h)
  unshared :
      (j k : TopologyPair) (a : Address) → lookup j copy ≡ some a → lookup k copy ≡ some a → j ≡ k
  int32s : All IsInt32 h

IsCopy-insert :
    (start : ℕ) (copy : Counts) (h : Heap) (k : TopologyPair) (v : ℤ)
    → start ≤ length h
    → IsInt32 v
    → IsCopy start copy h
    → IsCopy start (insert k (length h) copy) (h ++ v ∷ [])
IsCopy-insert start copy h k v low fits c = record {
  distinct = insert-IsMap k (length h) copy c.distinct;
  fresh = λ j a found.
      ground (arith, lookup-insert k j (length h) copy, c.fresh j a, length-append h (v ∷ []));
  unshared = λ i j a p q. ground (
    arith,
    lookup-insert k i (length h) copy,
    lookup-insert k j (length h) copy,
    ==_iff k i,
    ==_iff k j,
    c.unshared i j a,
    c.fresh i a,
    c.fresh j a,
  );
  int32s = All-append IsInt32 h (v ∷ []) c.int32s (fits, tt);
}

-- The loop of `Clone`: each remaining pair is copied to a new cell with its count, and the cells
-- that were there are left alone.
view-extend :
    (m : Counts) (h : Heap) (v : ℤ)
    → ((k : TopologyPair) (a : Address) → lookup k m ≡ some a → a < length h)
    → (k : TopologyPair) → view m (h ++ v ∷ []) k ≡ view m h k
view-extend m h v bounded k = elim (Option-cases (lookup k m)) [
  | inl missing ↦ view_absent m (h ++ v ∷ []) k missing ∙ sym (view_absent m h k missing)
  | inr (a, found) ↦
      view_of_lookup m (h ++ v ∷ []) k a found
      ∙ get_elem?-append_lt h (v ∷ []) a (bounded k a found)
      ∙ sym (view_of_lookup m h k a found)
]

view-insert :
    (m : Counts) (h : Heap) (k j : TopologyPair) (a : Address)
    → view (insert k a m) h j ≡ (if k == j then get_elem? h a else view m h j)
unfolding view
view-insert m h k j a = ground (arith, lookup-insert k j a m)

record IsCloned (counts copy : Counts) (h : Heap) (copy' : Counts) (h' : Heap) : Type 0 where
  kept : (a : Address) → a < length h → get_elem? h' a ≡ get_elem? h a
  grown : length h ≤ length h'
  copied :
      (k : TopologyPair) (a : Address) → lookup k counts ≡ some a → view copy' h' k ≡ get_elem? h a
  others : (k : TopologyPair) → lookup k counts ≡ none → view copy' h' k ≡ view copy h k

IsCopy-empty : (h : Heap) → All IsInt32 h → IsCopy (length h) [] h
unfolding IsMap
IsCopy-empty h fits = record {
  distinct = tt;
  fresh = λ k a found. absurd (cc (lookup-nil {V = Address} k));
  unshared = λ j k a p q. absurd (cc (lookup-nil {V = Address} k));
  int32s = fits;
}

lookup_head :
    (p : TopologyPair) (a : Address) (counts : Counts) → lookup p ((p, a) ∷ counts) ≡ some a
lookup_head p a counts = rw (lookup-cons, ==_refl p)

lookup_tail :
    (p : TopologyPair) (a : Address) (counts : Counts)
    → lookup p counts ≡ none
    → (k : TopologyPair) (b : Address) → lookup k counts ≡ some b
    → lookup k ((p, a) ∷ counts) ≡ some b
lookup_tail p a counts missing k b found = ground (arith, lookup-cons k p a counts, ==_iff p k)

IsCloned-step :
    (p : TopologyPair) (a : Address) (counts copy : Counts) (h : Heap) (start : ℕ) (v : ℤ)
    → get_elem? h a ≡ some v
    → lookup p counts ≡ none
    → ((k : TopologyPair) (b : Address) → lookup k counts ≡ some b → b < length h)
    → IsCopy start copy h
    → (copy' : Counts) (h' : Heap)
    → IsCloned counts (insert p (length h) copy) (h ++ v ∷ []) copy' h'
    → IsCloned ((p, a) ∷ counts) copy h copy' h'
IsCloned-step p a counts copy h start v held missing bounded c copy' h' ih = record {
  kept = λ b lt.
      ih.kept b (omega (arith, length-append h (v ∷ []))) ∙ get_elem?-append_lt h (v ∷ []) b lt;
  grown = omega (arith, length-append h (v ∷ []), ih.grown);
  copied = λ k b found. ground (
    arith,
    lookup-cons k p a counts,
    ==_iff p k,
    ih.others k,
    ih.copied k b,
    bounded k b,
    view-insert copy (h ++ v ∷ []) p k (length h),
    get_elem?-append_length h v,
    get_elem?-append_lt h (v ∷ []) b,
  );
  others = λ k absent. ground (
    arith,
    lookup-cons k p a counts,
    ih.others k,
    view-insert copy (h ++ v ∷ []) p k (length h),
    view-extend copy h v (λ j b found. (c.fresh j b found).1) k,
  );
}

clone_counts-IsCloned :
    (counts copy : Counts) (h : Heap) (start : ℕ)
    → start ≤ length h
    → IsMap counts
    → ((k : TopologyPair) (a : Address) → lookup k counts ≡ some a → a < length h)
    → IsCopy start copy h
    → Returns
        (clone_counts counts copy h)
        λ r. IsCopy start r.0 r.1 × IsCloned counts copy h r.0 r.1
unfolding clone_counts IsMap
clone_counts-IsCloned [] copy h start low distinct bounded c = (
  (copy, h),
  refl,
  (
    c,
    record {
      kept = λ a _. refl;
      grown = omega arith;
      copied = λ k a found. absurd (cc (lookup-nil {V = Address} k));
      others = λ k _. refl;
    },
  ),
)
clone_counts-IsCloned ((p, a) ∷ counts) copy h start low distinct bounded c =
    let (v, held) = get_elem?_of_lt h a (bounded p a (lookup_head p a counts)) in
    let grown : length (h ++ v ∷ []) ≡ length h + 1 = omega (arith, length-append h (v ∷ [])) in
    let below = λ (k : TopologyPair) (b : Address) (found : lookup k counts ≡ some b).
      bounded k b (lookup_tail p a counts distinct.0 k b found) in
    let (r, run, (is_copy, ih)) =
      clone_counts-IsCloned counts (insert p (length h) copy) (h ++ v ∷ []) start (omega arith)
        distinct.1 (λ k b found. omega (arith, below k b found))
        (IsCopy-insert start copy h p v low (All-get_elem? IsInt32 h a v c.int32s held) c) in
    (
      r,
      rw (held, clone_counts) run,
      (is_copy, IsCloned-step p a counts copy h start v held distinct.0 below c r.0 r.1 ih),
    )

cloned_view :
    (m copy : Counts) (h h' : Heap)
    → IsCloned m [] h copy h'
    → (k : TopologyPair) → view copy h' k ≡ view m h k
cloned_view m copy h h' c k = elim (Option-cases (lookup k m)) [
  | inl missing ↦
      c.others k missing ∙ view_absent [] h k (lookup-nil k) ∙ sym (view_absent m h k missing)
  | inr (a, found) ↦ c.copied k a found ∙ sym (view_of_lookup m h k a found)
]

kept_view :
    (m old copy : Counts) (h h' : Heap)
    → ((k : TopologyPair) (a : Address) → lookup k m ≡ some a → a < length h)
    → IsCloned m old h copy h'
    → (k : TopologyPair) → view m h' k ≡ view m h k
kept_view m old copy h h' bounded c k = elim (Option-cases (lookup k m)) [
  | inl missing ↦ view_absent m h' k missing ∙ sym (view_absent m h k missing)
  | inr (a, found) ↦
      view_of_lookup m h' k a found
      ∙ c.kept a (bounded k a found)
      ∙ sym (view_of_lookup m h k a found)
]

-- A clone returns. It has the original's constraint and strategy, it reads the same counts and is
-- valid, the original reads the counts that it read before, and the two share no cell.
pub clone-IsValid :
    (s : PreFilterState) (h : Heap)
    → IsValid s.tp_pair_to_match_num h
    → Returns (clone (some s) h) λ r.
      (t : PreFilterState) × (r.0 ≡ some t)
      × (t.constraint ≡ s.constraint)
      × (t.schedule_strategy ≡ s.schedule_strategy)
      × IsValid t.tp_pair_to_match_num r.1
      × ((k : TopologyPair) → view t.tp_pair_to_match_num r.1 k ≡ view s.tp_pair_to_match_num h k)
      × ((k : TopologyPair) → view s.tp_pair_to_match_num r.1 k ≡ view s.tp_pair_to_match_num h k)
      × ((j k : TopologyPair) (a : Address)
          → lookup j s.tp_pair_to_match_num ≡ some a
          → lookup k t.tp_pair_to_match_num ≢ some a)
unfolding clone
clone-IsValid s h valid =
    let m = s.tp_pair_to_match_num in
    let ((copy, h'), run, (c, cloned)) =
      clone_counts-IsCloned m [] h (length h) (omega arith) valid.distinct valid.bounded
        (IsCopy-empty h valid.int32s) in
    (
      (some (record s { tp_pair_to_match_num = copy }), h'),
      rw run,
      (
        record s { tp_pair_to_match_num = copy },
        refl,
        refl,
        refl,
        record {
          distinct = c.distinct;
          bounded = λ k a found. (c.fresh k a found).1;
          unshared = c.unshared;
          int32s = c.int32s;
        },
        cloned_view m copy h h' cloned,
        kept_view m [] copy h h' valid.bounded cloned,
        λ j k a old new. omega (arith, valid.bounded j a old, c.fresh k a new),
      ),
    )
