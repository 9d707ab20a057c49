-- ===== src/DeepCopy/Arguments/Apart.antt =====
-- The copy of the plugins' arguments shares no cell with its original.
use super_scheduling.Prelude.{◌≡◌, refl, subst, some, List, String, Map, Returns}
use super_scheduling.DeepCopy.{copy_pointer, ConfigurationCells}
use super_scheduling.DeepCopy.Separate.{
  IsHeld, IsGrown, IsGrown-trans, IsHeld-grown, IsCopyOf, copy_cell-IsCopyOf, IsCopyOf-widen,
  same_cells, IsHeldConfiguration, IsConfigurationCopy,
  deep_copy_configuration_into-IsConfigurationCopy,
}
use super_scheduling.DeepCopy.Policies.Copier.{
  IsCopier, HeldAll, AreCopies, copy_elements-IsCopier, HeldDeep, IsDeepCopy, copy_deep-IsCopier,
}
use super_scheduling.DeepCopy.Arguments.{
  SchedulingArgsCells, ArgumentCell, clusters, copy_entry, copy_clusters,
  deep_copy_scheduling_args_into, deep_copy_scheduling_args,
}

abbrev pub HeldEntry : String × ConfigurationCells → List ArgumentCell → Type 0
HeldEntry (key, val) cells = IsHeldConfiguration val cells

abbrev pub IsEntryCopy :
    String × ConfigurationCells
    → String × ConfigurationCells
    → List ArgumentCell
    → List ArgumentCell
    → Type 0
IsEntryCopy (key, val) (key', copy) cells cells' =
    (key' ≡ key) × IsConfigurationCopy val copy cells cells'

entry-IsCopier : IsCopier copy_entry HeldEntry IsEntryCopy
unfolding copy_entry
entry-IsCopier = record {
  copies = λ (key, val) cells held.
      let ((copy, x), run, (grown, copied)) =
        deep_copy_configuration_into-IsConfigurationCopy val cells held in
      (((key, copy), x), rw run refl, (grown, (refl, copied)));
  stays = λ (key, val) cells cells' held grown. (
    IsHeld-grown val.name cells cells' held.0 grown,
    IsHeld-grown val.kube_master cells cells' held.1 grown,
    IsHeld-grown val.kube_config cells cells' held.2 grown,
  );
  widen = λ (key, val) (key', copy) c₁ c₂ c₃ c₄ held before copied after. (
    copied.0,
    (
      IsCopyOf-widen val.name copy.name c₁ c₂ c₃ c₄ held.0 before copied.1.0 after,
      IsCopyOf-widen val.kube_master copy.kube_master c₁ c₂ c₃ c₄ held.1 before copied.1.1 after,
      IsCopyOf-widen val.kube_config copy.kube_config c₁ c₂ c₃ c₄ held.2 before copied.1.2 after,
    ),
  );
}

-- A cell with a map of configurations.
abbrev pub HeldClusters : ArgumentCell → List ArgumentCell → Type 0
HeldClusters cell cells =
    (m : Map String ConfigurationCells) × (cell ≡ clusters m) × HeldAll HeldEntry m cells

abbrev pub AreClusterCopies :
    ArgumentCell → ArgumentCell → List ArgumentCell → List ArgumentCell → Type 0
AreClusterCopies cell cell' cells cells' =
    (m copies : Map String ConfigurationCells) × (cell ≡ clusters m)
    × (cell' ≡ clusters copies)
    × AreCopies IsEntryCopy m copies cells cells'

clusters-IsCopier : IsCopier copy_clusters HeldClusters AreClusterCopies
unfolding copy_clusters
clusters-IsCopier =
    let every = copy_elements-IsCopier entry-IsCopier in
    record {
      copies = λ cell cells (m, e, held).
          let ((copies, x), run, (grown, copied)) = every.copies m cells held in
          ((clusters copies, x), rw e (rw run refl), (grown, (m, copies, e, refl, copied)));
      stays = λ cell cells cells' (m, e, held) grown. (m, e, every.stays m cells cells' held grown);
      widen = λ cell cell' c₁ c₂ c₃ c₄ (m', e', held) before (m, copies, e, made, copied) after.
          let same : m' ≡ m = cc (e, e') in
          (
            m,
            copies,
            e,
            made,
            every.widen m copies c₁ c₂ c₃ c₄ (subst (λ x. HeldAll HeldEntry x c₁) same held) before
                copied after,
          );
    }

-- The copy of v1beta1 arguments whose pointers and map are nil or held returns. The original's cells
-- are as before, the texts are in new cells, and the map is a new one with a copy of the
-- configuration of every cluster, whose texts are in new cells.
pub deep_copy_scheduling_args-IsCopyOf :
    (args : SchedulingArgsCells) (cells : List ArgumentCell)
    → IsHeld args.kube_config_path cells
    → IsHeld args.kube_master cells
    → HeldDeep HeldClusters args.cluster_configuration cells
    → Returns (deep_copy_scheduling_args (some args) cells) λ r.
      (copy : SchedulingArgsCells) × (r.0 ≡ some copy)
      × IsGrown cells r.1
      × IsCopyOf args.kube_config_path copy.kube_config_path cells r.1
      × IsCopyOf args.kube_master copy.kube_master cells r.1
      × IsDeepCopy AreClusterCopies args.cluster_configuration copy.cluster_configuration cells r.1
unfolding deep_copy_scheduling_args copy_pointer deep_copy_scheduling_args_into
deep_copy_scheduling_args-IsCopyOf args cells held₁ held₂ held₃ =
    let deep = copy_deep-IsCopier clusters-IsCopier in
    let ((q₁, x₁), run₁, (grown₁, copied₁)) =
      copy_cell-IsCopyOf args.kube_config_path cells held₁ in
    let ((q₂, x₂), run₂, (grown₂, copied₂)) =
      copy_cell-IsCopyOf args.kube_master x₁
        (IsHeld-grown args.kube_master cells x₁ held₂ grown₁) in
    let two = IsGrown-trans cells x₁ x₂ grown₁ grown₂ in
    let ((q₃, x₃), run₃, (grown₃, copied₃)) =
      deep.copies args.cluster_configuration x₂
        (deep.stays args.cluster_configuration cells x₂ held₃ two) in
    let copy : SchedulingArgsCells = record {
      kube_config_path = q₁;
      kube_master = q₂;
      cluster_configuration = q₃;
    } in
    (
      (some copy, x₃),
      rw run₁ (rw run₂ (rw run₃ refl)),
      (
        copy,
        refl,
        IsGrown-trans cells x₂ x₃ two grown₃,
        IsCopyOf-widen args.kube_config_path q₁ cells cells x₁ x₃ held₁ (same_cells cells) copied₁
            (IsGrown-trans x₁ x₂ x₃ grown₂ grown₃),
        IsCopyOf-widen args.kube_master q₂ cells x₁ x₂ x₃ held₂ grown₁ copied₂ grown₃,
        deep.widen args.cluster_configuration q₃ cells x₂ x₃ x₃ held₃ two copied₃ (same_cells x₃),
      ),
    )
