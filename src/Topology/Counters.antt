-- ===== src/Topology/Counters.antt =====
-- A Go `map[K]*int32`: each key holds the address of a cell. Cells are never freed, so the heap is
-- the list of their values, and a new cell stands at its end.
use super_scheduling.Prelude.{
  ℕ, ◌<◌, ◌≡◌, sym, ◌∙◌, ap, true, Option, none, some, List, [], ◌∷◌, ◌++◌, inl, inr, Map, lookup,
  insert, lookup-insert, IsMap, insert-IsMap, Eq, ◌==◌, ==_iff, length, get_elem?, set,
  length-append, length-set, get_elem?-set_self, get_elem?-set_ne, get_elem?-append_lt,
  get_elem?-append_length, All, All-get_elem?, All-set, All-append, set-set_self, ℤ, pos, negsuc,
  add32, add32_undo, lt_of_get_elem?, IsInt32, Run, returns, panics, Bool-cases, Option-cases,
  if◌then◌else◌, arith,
}

abbrev pub Address : Type 0
Address = ℕ

abbrev pub Heap : Type 0
Heap = List ℤ

-- `*p += delta`: a nil pointer panics. An address that holds no cell never arises.
unfoldable pub add_cell : Option Address → ℤ → Heap → Run Heap
add_cell none delta h = panics
add_cell (some a) delta h = elim (get_elem? h a) [
  | none ↦ panics
  | some v ↦ returns (set h a (add32 v delta))
]

module _ {K : Type 0} ⦃e : Eq K⦄ where
  -- What a reader sees under a key: `*m[k]`, or nothing where `m[k]` is nil.
  unfoldable pub view : Map K Address → Heap → K → Option ℤ
  view m h k = elim (lookup k m) [ none ↦ none | some a ↦ get_elem? h a ]

  -- Every address holds a cell, no two keys share a cell, and every cell holds an `int32`.
  pub record IsValid (m : Map K Address) (h : Heap) : Type 0 where
    pub distinct : IsMap m
    pub bounded : (k : K) (a : Address) → lookup k m ≡ some a → a < length h
    pub unshared : (j k : K) (a : Address) → lookup j m ≡ some a → lookup k m ≡ some a → j ≡ k
    pub int32s : All IsInt32 h

  pub view_of_lookup :
      (m : Map K Address) (h : Heap) (k : K) (a : Address)
      → lookup k m ≡ some a
      → view m h k ≡ get_elem? h a
  unfolding view
  view_of_lookup m h k a found = rw (found, view)

  pub view_absent : (m : Map K Address) (h : Heap) (k : K) → lookup k m ≡ none → view m h k ≡ none
  unfolding view
  view_absent m h k missing = rw (missing, view)

  pub lookup_of_view :
      (m : Map K Address) (h : Heap) (k : K) (c : ℤ)
      → view m h k ≡ some c
      → (a : Address) × (lookup k m ≡ some a) × (get_elem? h a ≡ some c)
  lookup_of_view m h k c seen = elim (Option-cases (lookup k m)) [
    | inl missing ↦ absurd (cc (view_absent m h k missing))
    | inr (a, found) ↦ (a, found, sym (view_of_lookup m h k a found) ∙ seen)
  ]

  module _ (m : Map K Address) (h : Heap) where
    -- A write through one key is seen under that key alone.
    pub view-set :
        IsValid m h
        → (k : K) (a : Address) → lookup k m ≡ some a
        → (v : ℤ) (j : K) → view m (set h a v) j ≡ (if k == j then some v else view m h j)
    view-set valid k a found v j = elim (Option-cases (lookup j m)) [
      | inl missing ↦
          ground (arith, ==_iff k j, view_absent m h j missing, view_absent m (set h a v) j missing)
      | inr (b, at) ↦ elim (Bool-cases (k == j)) [
        | inl same ↦
            rw (same, view_of_lookup m (set h a v) j b at, ← cell_same same b at)
              (get_elem?-set_self h a v (valid.bounded k a found))
        | inr other ↦
            rw (other, view_of_lookup m (set h a v) j b at, view_of_lookup m h j b at)
              (get_elem?-set_ne h a b v (λ (q : a ≡ b).
                cc (other, (==_iff k j).1 (valid.unshared k j b (found ∙ ap some q) at))))
      ]
    ]
      where
        cell_same : (k == j) ≡ true → (b : Address) → lookup j m ≡ some b → a ≡ b
        cell_same same b at = cc (found, at, (==_iff k j).0 same)

    pub set-IsValid : IsValid m h → (a : Address) (v : ℤ) → IsInt32 v → IsValid m (set h a v)
    set-IsValid valid a v fits = record {
      distinct = valid.distinct;
      bounded = λ k b found. rw (length-set h a v) (valid.bounded k b found);
      unshared = valid.unshared;
      int32s = All-set IsInt32 h a v valid.int32s fits;
    }

pub add_cell_at :
    (a : Address) (delta : ℤ) (h : Heap) (v : ℤ)
    → get_elem? h a ≡ some v
    → add_cell (some a) delta h ≡ returns (set h a (add32 v delta))
unfolding add_cell
add_cell_at a delta h v held = rw (held, add_cell)

-- Adding 1 and then -1 through one pointer restores the heap.
pub add_cell_undo :
    (p : Option Address) (h h' : Heap)
    → All IsInt32 h
    → add_cell p (pos 1) h ≡ returns h'
    → add_cell p (negsuc 0) h' ≡ returns h
unfolding add_cell
add_cell_undo none h h' fits run = cc
add_cell_undo (some a) h h' fits run = elim (Option-cases (get_elem? h a)) [
  | inl missing ↦ absurd (cc (rw (missing, add_cell) at run))
  | inr (v, held) ↦
      let w = add32 v (pos 1) in
      let e : h' ≡ set h a w = cc (add_cell_at a (pos 1) h v held) in
      ap (add_cell (some a) (negsuc 0)) e
      ∙ add_cell_at a (negsuc 0) (set h a w) w
          (get_elem?-set_self h a w (lt_of_get_elem? h a v held))
      ∙ ap returns (
          ap (set (set h a w) a) (add32_undo v (All-get_elem? IsInt32 h a v fits held))
          ∙ set-set_self h a v w held)
]

-- A new cell under the key `k`.
module _ {K : Type 0} ⦃e : Eq K⦄ (m : Map K Address) (h : Heap) (valid : IsValid m h) (k : K)
    (v : ℤ) where
  pub alloc-IsValid : IsInt32 v → IsValid (insert k (length h) m) (h ++ v ∷ [])
  alloc-IsValid fits = record {
    distinct = insert-IsMap k (length h) m valid.distinct;
    bounded = λ j a found.
        ground (arith, lookup-insert k j (length h) m, valid.bounded j a, length-append h (v ∷ []));
    unshared = λ i j a p q. ground (
      arith,
      lookup-insert k i (length h) m,
      lookup-insert k j (length h) m,
      ==_iff k i,
      ==_iff k j,
      valid.unshared i j a,
      valid.bounded i a,
      valid.bounded j a,
    );
    int32s = All-append IsInt32 h (v ∷ []) valid.int32s (fits, tt);
  }

  pub view-alloc :
      (j : K)
      → view (insert k (length h) m) (h ++ v ∷ []) j ≡ (if k == j then some v else view m h j)
  view-alloc j = elim (Bool-cases (k == j)) [
    | inl same ↦
        rw same
          (view_of_lookup _ _ j (length h) (rw (lookup-insert, same)) ∙ get_elem?-append_length h v)
    | inr other ↦ rw other (elim (Option-cases (lookup j m)) [
      | inl missing ↦
          view_absent _ _ j (rw (lookup-insert, other) missing) ∙ sym (view_absent m h j missing)
      | inr (a, found) ↦
          view_of_lookup _ _ j a (rw (lookup-insert, other) found)
          ∙ get_elem?-append_lt h (v ∷ []) a (valid.bounded j a found)
          ∙ sym (view_of_lookup m h j a found)
    ])
  ]
