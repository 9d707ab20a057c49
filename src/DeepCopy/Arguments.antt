-- ===== src/DeepCopy/Arguments.antt =====
-- The deep copies of the plugins' arguments, with a map of configurations by cluster:
-- pkg/apis/config/v1beta1/zz_generated.deepcopy.go and pkg/apis/config/zz_generated.deepcopy.go.
pub mod Apart
use super_scheduling.Prelude.{
  Option, none, some, List, [], ◌∷◌, ◌++◌, String, Map, Run, returns, panics, ◌>>=◌,
}
use super_scheduling.Config.Internal.{Configuration}
use super_scheduling.Topology.Counters.{Address}
use super_scheduling.DeepCopy.{
  copy_cell, copy_pointer, ConfigurationCells, deep_copy_configuration_into,
}
use super_scheduling.DeepCopy.Policies.{copy_elements, copy_deep}

-- SchedulingArgs of either package, with the addresses of its texts and its map; the internal one
-- has its texts in it.
pub record SchedulingArgsCells : Type 0 where
  pub kube_config_path : Option Address
  pub kube_master : Option Address
  pub cluster_configuration : Option Address

pub record InternalArgsCells : Type 0 where
  pub kube_config_path : String
  pub kube_master : String
  pub cluster_configuration : Option Address

pub data ArgumentCell : Type 0 where
  text : String → ArgumentCell
  clusters : Map String ConfigurationCells → ArgumentCell
  internal_clusters : Map String Configuration → ArgumentCell

-- `(*out)[key] = *val.DeepCopy()`.
unfoldable pub copy_entry :
    {C : Type 0}
    → String × ConfigurationCells
    → List C
    → Run ((String × ConfigurationCells) × List C)
unfolding deep_copy_configuration_into
copy_entry (key, val) cells =
    deep_copy_configuration_into val cells >>= λ (copy, cells'). returns ((key, copy), cells')

unfoldable pub copy_clusters :
    ArgumentCell → List ArgumentCell → Run (ArgumentCell × List ArgumentCell)
unfolding copy_elements copy_entry
copy_clusters (text s) cells = panics
copy_clusters (clusters m) cells =
    copy_elements copy_entry m cells >>= λ (copies, cells'). returns (clusters copies, cells')
copy_clusters (internal_clusters m) cells = panics

unfoldable pub deep_copy_scheduling_args_into :
    SchedulingArgsCells → List ArgumentCell → Run (SchedulingArgsCells × List ArgumentCell)
unfolding copy_cell copy_deep copy_clusters
deep_copy_scheduling_args_into original cells =
    copy_cell original.kube_config_path cells >>= λ (kube_config_path, cells₁).
    copy_cell original.kube_master cells₁ >>= λ (kube_master, cells₂).
    copy_deep copy_clusters original.cluster_configuration cells₂
    >>= λ (cluster_configuration, cells₃). returns (
      record {
        kube_config_path = kube_config_path;
        kube_master = kube_master;
        cluster_configuration = cluster_configuration;
      },
      cells₃,
    )

unfoldable pub deep_copy_scheduling_args :
    Option SchedulingArgsCells
    → List ArgumentCell
    → Run (Option SchedulingArgsCells × List ArgumentCell)
unfolding copy_pointer deep_copy_scheduling_args_into
deep_copy_scheduling_args = copy_pointer deep_copy_scheduling_args_into

-- The configurations of the internal map hold no pointers.
unfoldable pub deep_copy_internal_args :
    Option InternalArgsCells
    → List ArgumentCell
    → Run (Option InternalArgsCells × List ArgumentCell)
unfolding copy_pointer copy_cell
deep_copy_internal_args = copy_pointer λ original cells.
    copy_cell original.cluster_configuration cells >>= λ (cluster_configuration, cells').
    returns (record original { cluster_configuration = cluster_configuration }, cells')

unfoldable pub deep_copy_internal_configuration :
    {C : Type 0} → Option Configuration → List C → Run (Option Configuration × List C)
unfolding copy_pointer
deep_copy_internal_configuration = copy_pointer λ original cells. returns (original, cells)
