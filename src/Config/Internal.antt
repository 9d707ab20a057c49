-- ===== src/Config/Internal.antt =====
-- pkg/apis/config/types.go: the arguments of the plugins in the form that the code works with.
use super_scheduling.Prelude.{Option, String, Map}

pub record Configuration : Type 0 where
  pub name : String
  pub kube_master : String
  pub kube_config : String

-- The type metadata is left out. A nil map is none.
pub record SchedulingArgs : Type 0 where
  pub kube_config_path : String
  pub kube_master : String
  pub cluster_configuration : Option (Map String Configuration)
