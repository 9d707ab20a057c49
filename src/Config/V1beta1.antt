-- ===== src/Config/V1beta1.antt =====
-- pkg/apis/config/v1beta1/types.go: the arguments of the plugins in the form that users write.
use super_scheduling.Prelude.{Option, String, Map}

-- A nil pointer is none.
pub record Configuration : Type 0 where
  pub name : Option String
  pub kube_master : Option String
  pub kube_config : Option String

pub record SchedulingArgs : Type 0 where
  pub kube_config_path : Option String
  pub kube_master : Option String
  pub cluster_configuration : Option (Map String Configuration)
