-- ===== src/DeepCopy/Policies/Whole.antt =====
-- The copies of a policy and of a list of policies share no cell with their originals.
use super_scheduling.Prelude.{◌≡◌, refl, subst, some, List, Returns}
use super_scheduling.DeepCopy.{copy_pointer}
use super_scheduling.DeepCopy.Separate.{
  IsHeld, IsGrown, IsGrown-trans, IsHeld-grown, IsCopyOf, copy_cell-IsCopyOf, IsCopyOf-widen,
  same_cells,
}
use super_scheduling.DeepCopy.Policies.{
  PolicyCells, PolicyListCells, Cell, policies, copy_policies, deep_copy_policy_into,
  deep_copy_list,
}
use super_scheduling.DeepCopy.Policies.Copier.{
  IsCopier, HeldAll, AreCopies, copy_elements-IsCopier, HeldDeep, IsDeepCopy, copy_deep-IsCopier,
}
use super_scheduling.DeepCopy.Policies.Spec.{IsHeldSpec, IsSpecCopy, spec-IsCopier}

module _ {LabelSelector Meta : Type 0} (copy_label_selector : LabelSelector → LabelSelector)
    (copy_meta : Meta → Meta) where
  abbrev Heap : Type 0
  Heap = List (Cell LabelSelector Meta)

  pub record IsHeldPolicy (p : PolicyCells Meta) (cells : Heap) : Type 0 where
    pub spec : IsHeldSpec copy_label_selector copy_meta p.spec cells
    pub status : IsHeld p.status.placement cells

  pub record IsPolicyCopy (p copy : PolicyCells Meta) (cells cells' : Heap) : Type 0 where
    pub object_meta : copy.object_meta ≡ copy_meta p.object_meta
    pub spec : IsSpecCopy copy_label_selector copy_meta p.spec copy.spec cells cells'
    pub status : IsCopyOf p.status.placement copy.status.placement cells cells'

  policy_copied :
      (p : PolicyCells Meta) (cells : Heap)
      → IsHeldPolicy p cells
      → Returns
          (deep_copy_policy_into copy_label_selector copy_meta p cells)
          λ r. IsGrown cells r.1 × IsPolicyCopy p r.0 cells r.1
  unfolding deep_copy_policy_into
  policy_copied p cells held =
      let specs = spec-IsCopier copy_label_selector copy_meta in
      let ((spec, x₁), run₁, (grown₁, copied₁)) = specs.copies p.spec cells held.spec in
      let ((q, x₂), run₂, (grown₂, copied₂)) =
        copy_cell-IsCopyOf p.status.placement x₁
          (IsHeld-grown p.status.placement cells x₁ held.status grown₁) in
      (
        (
          record {
            object_meta = copy_meta p.object_meta;
            spec = spec;
            status = record { placement = q };
          },
          x₂,
        ),
        rw run₁ (rw run₂ refl),
        (
          IsGrown-trans cells x₁ x₂ grown₁ grown₂,
          record {
            object_meta = refl;
            spec =
                specs.widen p.spec spec cells cells x₁ x₂ held.spec (same_cells cells) copied₁
                  grown₂;
            status =
                IsCopyOf-widen p.status.placement q cells x₁ x₂ x₂ held.status grown₁ copied₂
                  (same_cells x₂);
          },
        ),
      )

  policy-IsCopier :
      IsCopier (deep_copy_policy_into copy_label_selector copy_meta) IsHeldPolicy IsPolicyCopy
  policy-IsCopier =
      let specs = spec-IsCopier copy_label_selector copy_meta in
      record {
        copies = policy_copied;
        stays = λ p cells cells' held grown. record {
          spec = specs.stays p.spec cells cells' held.spec grown;
          status = IsHeld-grown p.status.placement cells cells' held.status grown;
        };
        widen = λ p copy c₁ c₂ c₃ c₄ held before copied after. record {
          object_meta = copied.object_meta;
          spec = specs.widen p.spec copy.spec c₁ c₂ c₃ c₄ held.spec before copied.spec after;
          status =
              IsCopyOf-widen p.status.placement copy.status.placement c₁ c₂ c₃ c₄ held.status before
                copied.status after;
        };
      }

  -- A cell with policies.
  abbrev pub HeldPolicies : Cell LabelSelector Meta → Heap → Type 0
  HeldPolicies cell cells =
      (ps : List (PolicyCells Meta)) × (cell ≡ policies ps) × HeldAll IsHeldPolicy ps cells

  abbrev pub ArePolicyCopies :
      Cell LabelSelector Meta → Cell LabelSelector Meta → Heap → Heap → Type 0
  ArePolicyCopies cell cell' cells cells' =
      (ps copies : List (PolicyCells Meta)) × (cell ≡ policies ps)
      × (cell' ≡ policies copies)
      × AreCopies IsPolicyCopy ps copies cells cells'

  policies-IsCopier :
      IsCopier (copy_policies copy_label_selector copy_meta) HeldPolicies ArePolicyCopies
  unfolding copy_policies
  policies-IsCopier =
      let every = copy_elements-IsCopier policy-IsCopier in
      record {
        copies = λ cell cells (ps, e, held).
            let ((qs, x), run, (grown, copied)) = every.copies ps cells held in
            ((policies qs, x), rw e (rw run refl), (grown, (ps, qs, e, refl, copied)));
        stays = λ cell cells cells' (ps, e, held) grown.
            (ps, e, every.stays ps cells cells' held grown);
        widen = λ cell cell' c₁ c₂ c₃ c₄ (ps', e', held) before (ps, qs, e, made, copied) after.
            let same : ps' ≡ ps = cc (e, e') in
            (
              ps,
              qs,
              e,
              made,
              every.widen ps qs c₁ c₂ c₃ c₄ (subst (λ x. HeldAll IsHeldPolicy x c₁) same held)
                  before copied after,
            );
      }

  -- The copy of a list of policies whose slices and pointers are nil or held returns, with a copy of
  -- the list's metadata. The original's cells are as before, and the copy's items are nil with the
  -- original's, or a new cell with a copy of each policy in its order: its metadata copied, its
  -- texts as they were, and its slices, those of its update policies and its selector in new cells.
  pub deep_copy_list-IsDeepCopy :
      (l : PolicyListCells Meta) (cells : Heap)
      → HeldDeep HeldPolicies l.items cells
      → Returns (deep_copy_list copy_label_selector copy_meta (some l) cells) λ r.
        (copy : PolicyListCells Meta) × (r.0 ≡ some copy)
        × (copy.list_meta ≡ copy_meta l.list_meta)
        × IsGrown cells r.1
        × IsDeepCopy ArePolicyCopies l.items copy.items cells r.1
  unfolding deep_copy_list copy_pointer
  deep_copy_list-IsDeepCopy l cells held =
      let items = copy_deep-IsCopier policies-IsCopier in
      let ((q, x), run, (grown, copied)) = items.copies l.items cells held in
      let copy : PolicyListCells Meta = record { list_meta = copy_meta l.list_meta; items = q } in
      ((some copy, x), rw run refl, (copy, refl, refl, grown, copied))
