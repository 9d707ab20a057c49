-- ===== src/DeepCopy/Policies/Copier.antt =====
-- Copies that are put together from copies: of the elements of a slice, and behind a pointer.
use super_scheduling.Prelude.{
  ◌≤◌, ◌≡◌, refl, sym, ◌∙◌, subst, Option, none, some, List, [], ◌∷◌, ◌++◌, length, get_elem?,
  length-append, get_elem?-append_lt, get_elem?-append_length, lt_of_get_elem?, Run, Returns, arith,
}
use super_scheduling.Topology.Counters.{Address}
use super_scheduling.DeepCopy.{copy_cell}
use super_scheduling.DeepCopy.Separate.{
  IsHeld, IsGrown, IsGrown-trans, IsHeld-grown, IsCopyOf, copy_cell-IsCopyOf, IsCopyOf-widen,
  same_cells,
}
use super_scheduling.DeepCopy.Policies.{copy_elements, copy_deep}

-- A copy function does its work for what is `Held`: it returns, it keeps the cells, and its result
-- `IsCopy` of the original, which cells that are made before and after do not change.
pub record IsCopier {A C : Type 0} (copy_into : A → List C → Run (A × List C))
    (Held : A → List C → Type 0) (IsCopy : A → A → List C → List C → Type 0) : Type 0 where
  pub copies :
      (x : A) (cells : List C)
      → Held x cells
      → Returns (copy_into x cells) λ r. IsGrown cells r.1 × IsCopy x r.0 cells r.1
  pub stays : (x : A) (cells cells' : List C) → Held x cells → IsGrown cells cells' → Held x cells'
  pub widen :
      (x y : A) (c₁ c₂ c₃ c₄ : List C)
      → Held x c₁
      → IsGrown c₁ c₂
      → IsCopy x y c₂ c₃
      → IsGrown c₃ c₄
      → IsCopy x y c₁ c₄

pub copy_cell-IsCopier : {C : Type 0} → IsCopier {C = C} copy_cell IsHeld IsCopyOf
copy_cell-IsCopier = record {
  copies = copy_cell-IsCopyOf;
  stays = IsHeld-grown;
  widen = IsCopyOf-widen;
}

abbrev pub HeldAll : {A C : Type 0} → (A → List C → Type 0) → List A → List C → Type 0
HeldAll Held [] cells = Unit
HeldAll Held (x ∷ xs) cells = Held x cells × HeldAll Held xs cells

-- Copies in the same order.
abbrev pub AreCopies :
    {A C : Type 0} → (A → A → List C → List C → Type 0) → List A → List A → List C → List C → Type 0
AreCopies IsCopy [] [] cells cells' = Unit
AreCopies IsCopy [] (y ∷ ys) cells cells' = ⊥
AreCopies IsCopy (x ∷ xs) [] cells cells' = ⊥
AreCopies IsCopy (x ∷ xs) (y ∷ ys) cells cells' =
    IsCopy x y cells cells' × AreCopies IsCopy xs ys cells cells'

module _ {A C : Type 0} {copy_into : A → List C → Run (A × List C)} {Held : A → List C → Type 0}
    {IsCopy : A → A → List C → List C → Type 0} (c : IsCopier copy_into Held IsCopy) where
  elements_stay :
      (xs : List A) (cells cells' : List C)
      → HeldAll Held xs cells
      → IsGrown cells cells'
      → HeldAll Held xs cells'
  elements_stay [] cells cells' held grown = tt
  elements_stay (x ∷ xs) cells cells' held grown =
      (c.stays x cells cells' held.0 grown, elements_stay xs cells cells' held.1 grown)

  elements_widen :
      (xs ys : List A) (c₁ c₂ c₃ c₄ : List C)
      → HeldAll Held xs c₁
      → IsGrown c₁ c₂
      → AreCopies IsCopy xs ys c₂ c₃
      → IsGrown c₃ c₄
      → AreCopies IsCopy xs ys c₁ c₄
  elements_widen [] [] c₁ c₂ c₃ c₄ held before copied after = tt
  elements_widen [] (y ∷ ys) c₁ c₂ c₃ c₄ held before copied after = copied
  elements_widen (x ∷ xs) [] c₁ c₂ c₃ c₄ held before copied after = copied
  elements_widen (x ∷ xs) (y ∷ ys) c₁ c₂ c₃ c₄ held before copied after = (
    c.widen x y c₁ c₂ c₃ c₄ held.0 before copied.0 after,
    elements_widen xs ys c₁ c₂ c₃ c₄ held.1 before copied.1 after,
  )

  elements_copied :
      (xs : List A) (cells : List C)
      → HeldAll Held xs cells
      → Returns
          (copy_elements copy_into xs cells)
          λ r. IsGrown cells r.1 × AreCopies IsCopy xs r.0 cells r.1
  unfolding copy_elements
  elements_copied [] cells held = (([], cells), refl, (same_cells cells, tt))
  elements_copied (x ∷ xs) cells held =
      let ((y, cells₁), run, (grown, copied)) = c.copies x cells held.0 in
      let later = elements_stay xs cells cells₁ held.1 grown in
      let ((ys, cells₂), runs, (grown', all_copied)) = elements_copied xs cells₁ later in
      (
        (y ∷ ys, cells₂),
        rw run (rw runs refl),
        (
          IsGrown-trans cells cells₁ cells₂ grown grown',
          (
            c.widen x y cells cells cells₁ cells₂ held.0 (same_cells cells) copied grown',
            elements_widen xs ys cells cells₁ cells₂ cells₂ held.1 grown all_copied
                (same_cells cells₂),
          ),
        ),
      )

  pub copy_elements-IsCopier : IsCopier (copy_elements copy_into) (HeldAll Held) (AreCopies IsCopy)
  copy_elements-IsCopier = record {
    copies = elements_copied;
    stays = elements_stay;
    widen = elements_widen;
  }

append-IsGrown : {C : Type 0} (cells : List C) (new : C) → IsGrown cells (cells ++ new ∷ [])
append-IsGrown cells new = record {
  longer = omega (arith, length-append cells (new ∷ []));
  kept = λ a h. get_elem?-append_lt cells (new ∷ []) a h;
}

-- A pointer to a cell that is held.
abbrev pub HeldDeep : {C : Type 0} → (C → List C → Type 0) → Option Address → List C → Type 0
HeldDeep {C} Held none cells = Unit
HeldDeep {C} Held (some a) cells = (cell : C) × (get_elem? cells a ≡ some cell) × Held cell cells

-- Two nil pointers, or the second one points to a new cell that is a copy of the first one's.
abbrev pub IsDeepCopy :
    {C : Type 0}
    → (C → C → List C → List C → Type 0)
    → Option Address
    → Option Address
    → List C
    → List C
    → Type 0
IsDeepCopy {C} IsCopy none none cells cells' = Unit
IsDeepCopy {C} IsCopy none (some b) cells cells' = ⊥
IsDeepCopy {C} IsCopy (some a) none cells cells' = ⊥
IsDeepCopy {C} IsCopy (some a) (some b) cells cells' =
    (length cells ≤ b)
    × (old : C) × (new : C) × (get_elem? cells a ≡ some old)
    × (get_elem? cells' b ≡ some new)
    × IsCopy old new cells cells'

module _ {C : Type 0} {copy : C → List C → Run (C × List C)} {Held : C → List C → Type 0}
    {IsCopy : C → C → List C → List C → Type 0} (c : IsCopier copy Held IsCopy) where
  deep_stays :
      (p : Option Address) (cells cells' : List C)
      → HeldDeep Held p cells
      → IsGrown cells cells'
      → HeldDeep Held p cells'
  deep_stays none cells cells' held grown = tt
  deep_stays (some a) cells cells' (cell, found, held) grown = (
    cell,
    grown.kept a (lt_of_get_elem? cells a cell found) ∙ found,
    c.stays cell cells cells' held grown,
  )

  deep_widen :
      (p q : Option Address) (c₁ c₂ c₃ c₄ : List C)
      → HeldDeep Held p c₁
      → IsGrown c₁ c₂
      → IsDeepCopy IsCopy p q c₂ c₃
      → IsGrown c₃ c₄
      → IsDeepCopy IsCopy p q c₁ c₄
  deep_widen none none c₁ c₂ c₃ c₄ held before copied after = tt
  deep_widen none (some b) c₁ c₂ c₃ c₄ held before copied after = copied
  deep_widen (some a) none c₁ c₂ c₃ c₄ held before copied after = copied
  deep_widen (some a) (some b) c₁ c₂ c₃ c₄ (cell, found, held) before
        (past, old, new, reads, there, copied) after =
      let same : some cell ≡ some old =
        sym found ∙ sym (before.kept a (lt_of_get_elem? c₁ a cell found)) ∙ reads in
      let e : cell ≡ old = cc same in
      (
        omega (arith, past, before.longer),
        old,
        new,
        found ∙ same,
        after.kept b (lt_of_get_elem? c₃ b new there) ∙ there,
        c.widen old new c₁ c₂ c₃ c₄ (subst (λ x. Held x c₁) e held) before copied after,
      )

  deep_copied :
      (p : Option Address) (cells : List C)
      → HeldDeep Held p cells
      → Returns (copy_deep copy p cells) λ r. IsGrown cells r.1 × IsDeepCopy IsCopy p r.0 cells r.1
  unfolding copy_deep
  deep_copied none cells held = ((none, cells), refl, (same_cells cells, tt))
  deep_copied (some a) cells (cell, found, held) =
      let ((new, cells'), run, (grown, copied)) = c.copies cell cells held in
      let more : IsGrown cells' (cells' ++ new ∷ []) = append-IsGrown cells' new in
      (
        (some (length cells'), cells' ++ new ∷ []),
        rw (found, copy_deep) (rw run refl),
        (
          IsGrown-trans cells cells' (cells' ++ new ∷ []) grown more,
          (
            grown.longer,
            cell,
            new,
            found,
            get_elem?-append_length cells' new,
            c.widen cell new cells cells cells' (cells' ++ new ∷ []) held (same_cells cells) copied
                more,
          ),
        ),
      )

  pub copy_deep-IsCopier : IsCopier (copy_deep copy) (HeldDeep Held) (IsDeepCopy IsCopy)
  copy_deep-IsCopier = record { copies = deep_copied; stays = deep_stays; widen = deep_widen }
