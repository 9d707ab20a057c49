-- ===== src/DeepCopy/Policies/Spec.antt =====
-- The copy of a policy's specification shares no cell with its original.
use super_scheduling.Prelude.{◌≡◌, refl, subst, List, Returns}
use super_scheduling.DeepCopy.{UpdatePolicyCells}
use super_scheduling.DeepCopy.Separate.{
  IsHeld, IsGrown, IsGrown-trans, IsHeld-grown, IsCopyOf, copy_cell-IsCopyOf, IsCopyOf-widen,
  same_cells,
}
use super_scheduling.DeepCopy.Policies.{
  SpecCells, Cell, updates, selector, copy_elements, copy_update_into, copy_updates, copy_selector,
  deep_copy_spec_into,
}
use super_scheduling.DeepCopy.Policies.Copier.{
  IsCopier, HeldAll, AreCopies, copy_elements-IsCopier, HeldDeep, IsDeepCopy, copy_deep-IsCopier,
}

module _ {LabelSelector Meta : Type 0} (copy_label_selector : LabelSelector → LabelSelector)
    (copy_meta : Meta → Meta) where
  abbrev pub Cells : Type 0
  Cells = List (Cell LabelSelector Meta)

  abbrev pub HeldUpdate : UpdatePolicyCells → Cells → Type 0
  HeldUpdate u cells = IsHeld u.update_sequence cells

  abbrev pub IsUpdateCopy : UpdatePolicyCells → UpdatePolicyCells → Cells → Cells → Type 0
  IsUpdateCopy u u' cells cells' =
      (u'.max_skew ≡ u.max_skew) × IsCopyOf u.update_sequence u'.update_sequence cells cells'

  update-IsCopier : IsCopier copy_update_into HeldUpdate IsUpdateCopy
  unfolding copy_update_into
  update-IsCopier = record {
    copies = λ u cells held.
        let ((q, x), run, (grown, copied)) = copy_cell-IsCopyOf u.update_sequence cells held in
        ((record u { update_sequence = q }, x), rw run refl, (grown, (refl, copied)));
    stays = λ u cells cells' held grown. IsHeld-grown u.update_sequence cells cells' held grown;
    widen = λ u u' c₁ c₂ c₃ c₄ held before copied after. (
      copied.0,
      IsCopyOf-widen u.update_sequence u'.update_sequence c₁ c₂ c₃ c₄ held before copied.1 after,
    );
  }

  -- A cell with update policies, and one with a label selector.
  abbrev pub HeldUpdates : Cell LabelSelector Meta → Cells → Type 0
  HeldUpdates cell cells =
      (us : List UpdatePolicyCells) × (cell ≡ updates us) × HeldAll HeldUpdate us cells

  abbrev pub AreUpdateCopies :
      Cell LabelSelector Meta → Cell LabelSelector Meta → Cells → Cells → Type 0
  AreUpdateCopies cell cell' cells cells' =
      (us vs : List UpdatePolicyCells) × (cell ≡ updates us)
      × (cell' ≡ updates vs)
      × AreCopies IsUpdateCopy us vs cells cells'

  abbrev pub HeldSelector : Cell LabelSelector Meta → Cells → Type 0
  HeldSelector cell cells = (l : LabelSelector) × (cell ≡ selector l)

  abbrev pub IsSelectorCopy :
      Cell LabelSelector Meta → Cell LabelSelector Meta → Cells → Cells → Type 0
  IsSelectorCopy cell cell' cells cells' =
      (l : LabelSelector) × (cell ≡ selector l) × (cell' ≡ selector (copy_label_selector l))

  all_updates :
      IsCopier (copy_elements copy_update_into) (HeldAll HeldUpdate) (AreCopies IsUpdateCopy)
  all_updates = copy_elements-IsCopier update-IsCopier

  updates-IsCopier :
      IsCopier (copy_updates copy_label_selector copy_meta) HeldUpdates AreUpdateCopies
  unfolding copy_updates
  updates-IsCopier = record {
    copies = λ cell cells (us, e, held).
        let ((vs, x), run, (grown, copied)) = all_updates.copies us cells held in
        ((updates vs, x), rw e (rw run refl), (grown, (us, vs, e, refl, copied)));
    stays = λ cell cells cells' (us, e, held) grown.
        (us, e, all_updates.stays us cells cells' held grown);
    widen = λ cell cell' c₁ c₂ c₃ c₄ (us', e', held) before (us, vs, e, made, copied) after.
        let same : us' ≡ us = cc (e, e') in
        (
          us,
          vs,
          e,
          made,
          all_updates.widen us vs c₁ c₂ c₃ c₄ (subst (λ x. HeldAll HeldUpdate x c₁) same held)
              before copied after,
        );
  }

  selector-IsCopier :
      IsCopier (copy_selector copy_label_selector copy_meta) HeldSelector IsSelectorCopy
  unfolding copy_selector
  selector-IsCopier = record {
    copies = λ cell cells (l, e).
        ((selector (copy_label_selector l), cells), rw e refl, (same_cells cells, (l, e, refl)));
    stays = λ cell cells cells' held grown. held;
    widen = λ cell cell' c₁ c₂ c₃ c₄ held before copied after. copied;
  }

  -- The slices and the selector of a specification are nil or held.
  pub record IsHeldSpec (spec : SpecCells) (cells : Cells) : Type 0 where
    pub deploy : IsHeld spec.deploy_placement cells
    pub update : HeldDeep HeldUpdates spec.update_placement cells
    pub label : HeldDeep HeldSelector spec.label_selector cells

  -- Equal texts, and the slices and the selector are new and read the same, or are nil with those
  -- of the original; so are the sequences of the update policies.
  pub record IsSpecCopy (spec copy : SpecCells) (cells cells' : Cells) : Type 0 where
    pub key : copy.topology_key ≡ spec.topology_key
    pub strategy : copy.schedule_strategy ≡ spec.schedule_strategy
    pub deploy : IsCopyOf spec.deploy_placement copy.deploy_placement cells cells'
    pub update : IsDeepCopy AreUpdateCopies spec.update_placement copy.update_placement cells cells'
    pub label : IsDeepCopy IsSelectorCopy spec.label_selector copy.label_selector cells cells'

  spec_copied :
      (spec : SpecCells) (cells : Cells)
      → IsHeldSpec spec cells
      → Returns
          (deep_copy_spec_into copy_label_selector copy_meta spec cells)
          λ r. IsGrown cells r.1 × IsSpecCopy spec r.0 cells r.1
  unfolding deep_copy_spec_into
  spec_copied spec cells held =
      let deep_updates = copy_deep-IsCopier updates-IsCopier in
      let deep_selector = copy_deep-IsCopier selector-IsCopier in
      let ((q₁, x₁), run₁, (grown₁, copied₁)) =
        copy_cell-IsCopyOf spec.deploy_placement cells held.deploy in
      let ((q₂, x₂), run₂, (grown₂, copied₂)) =
        deep_updates.copies spec.update_placement x₁
          (deep_updates.stays spec.update_placement cells x₁ held.update grown₁) in
      let two = IsGrown-trans cells x₁ x₂ grown₁ grown₂ in
      let ((q₃, x₃), run₃, (grown₃, copied₃)) =
        deep_selector.copies spec.label_selector x₂
          (deep_selector.stays spec.label_selector cells x₂ held.label two) in
      (
        (record spec { deploy_placement = q₁; update_placement = q₂; label_selector = q₃ }, x₃),
        rw run₁ (rw run₂ (rw run₃ refl)),
        (
          IsGrown-trans cells x₂ x₃ two grown₃,
          record {
            key = refl;
            strategy = refl;
            deploy =
                IsCopyOf-widen spec.deploy_placement q₁ cells cells x₁ x₃ held.deploy
                  (same_cells cells) copied₁ (IsGrown-trans x₁ x₂ x₃ grown₂ grown₃);
            update =
                deep_updates.widen spec.update_placement q₂ cells x₁ x₂ x₃ held.update grown₁
                  copied₂ grown₃;
            label =
                deep_selector.widen spec.label_selector q₃ cells x₂ x₃ x₃ held.label two copied₃
                  (same_cells x₃);
          },
        ),
      )

  pub spec-IsCopier :
      IsCopier (deep_copy_spec_into copy_label_selector copy_meta) IsHeldSpec IsSpecCopy
  spec-IsCopier =
      let deep_updates = copy_deep-IsCopier updates-IsCopier in
      let deep_selector = copy_deep-IsCopier selector-IsCopier in
      record {
        copies = spec_copied;
        stays = λ spec cells cells' held grown. record {
          deploy = IsHeld-grown spec.deploy_placement cells cells' held.deploy grown;
          update = deep_updates.stays spec.update_placement cells cells' held.update grown;
          label = deep_selector.stays spec.label_selector cells cells' held.label grown;
        };
        widen = λ spec copy c₁ c₂ c₃ c₄ held before copied after. record {
          key = copied.key;
          strategy = copied.strategy;
          deploy =
              IsCopyOf-widen spec.deploy_placement copy.deploy_placement c₁ c₂ c₃ c₄ held.deploy
                before copied.deploy after;
          update =
              deep_updates.widen spec.update_placement copy.update_placement c₁ c₂ c₃ c₄ held.update
                before copied.update after;
          label =
              deep_selector.widen spec.label_selector copy.label_selector c₁ c₂ c₃ c₄ held.label
                before copied.label after;
        };
      }
