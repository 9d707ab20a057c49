-- ===== src/DeepCopy.antt =====
-- The generated deep copies that allocate: pkg/apis/scheduling/v1alpha1/zz_generated.deepcopy.go and
-- pkg/apis/config/v1beta1/zz_generated.deepcopy.go. The objects here hold their slices and pointers
-- by address, so that a copy that shares a cell with its original can be told from one that does not.
pub mod Separate
pub mod Policies
pub mod Arguments
use super_scheduling.Prelude.{
  Option, none, some, List, [], ◌∷◌, ◌++◌, String, length, get_elem?, ℤ, Run, returns, panics,
  ◌>>=◌,
}
use super_scheduling.Api.Scheduling.{SchedulePolicy}
use super_scheduling.Topology.Counters.{Address}

-- A new cell with what the old one holds: `new`, or `make` with the old length, and then the copy.
-- A nil pointer or slice stays nil.
unfoldable pub copy_cell : {A : Type 0} → Option Address → List A → Run (Option Address × List A)
copy_cell none cells = returns (none, cells)
copy_cell (some old) cells = elim (get_elem? cells old) [
  | none ↦ panics
  | some value ↦ returns (some (length cells), cells ++ value ∷ [])
]

-- `DeepCopy` of a pointer, from `DeepCopyInto`: a nil pointer stays nil.
unfoldable pub copy_pointer :
    {A C : Type 0} → (A → List C → Run (A × List C)) → Option A → List C → Run (Option A × List C)
copy_pointer copy_into none cells = returns (none, cells)
copy_pointer copy_into (some original) cells =
    copy_into original cells >>= λ (copy, cells'). returns (some copy, cells')

-- A type without pointers is copied by the assignment.
unfoldable pub deep_copy_schedule_policy :
    {C : Type 0} → Option SchedulePolicy → List C → Run (Option SchedulePolicy × List C)
unfolding copy_pointer
deep_copy_schedule_policy = copy_pointer λ original cells. returns (original, cells)

-- DeployPlacement, with the address of its slice.
pub record DeployPlacement : Type 0 where
  pub when_unsatisfiable : String
  pub policy : Option Address

unfoldable pub deep_copy_deploy_placement :
    Option DeployPlacement
    → List (List SchedulePolicy)
    → Run (Option DeployPlacement × List (List SchedulePolicy))
unfolding copy_pointer copy_cell
deep_copy_deploy_placement = copy_pointer λ original cells.
    copy_cell original.policy cells >>= λ (policy, cells').
    returns (record original { policy = policy }, cells')

-- TopologySchedulingPolicyStatus, with the address of its slice.
pub record PolicyStatus : Type 0 where
  pub placement : Option Address

unfoldable pub deep_copy_status :
    Option PolicyStatus
    → List (List SchedulePolicy)
    → Run (Option PolicyStatus × List (List SchedulePolicy))
unfolding copy_pointer copy_cell
deep_copy_status = copy_pointer λ original cells.
    copy_cell original.placement cells >>= λ (placement, cells').
    returns (record { placement = placement }, cells')

-- UpdatePolicy, with the address of its slice.
pub record UpdatePolicyCells : Type 0 where
  pub max_skew : ℤ
  pub update_sequence : Option Address

unfoldable pub deep_copy_update_policy :
    Option UpdatePolicyCells
    → List (List String)
    → Run (Option UpdatePolicyCells × List (List String))
unfolding copy_pointer copy_cell
deep_copy_update_policy = copy_pointer λ original cells.
    copy_cell original.update_sequence cells >>= λ (update_sequence, cells').
    returns (record original { update_sequence = update_sequence }, cells')

-- The v1beta1 Configuration, with its three pointers.
pub record ConfigurationCells : Type 0 where
  pub name : Option Address
  pub kube_master : Option Address
  pub kube_config : Option Address

unfoldable pub deep_copy_configuration_into :
    {C : Type 0} → ConfigurationCells → List C → Run (ConfigurationCells × List C)
unfolding copy_cell
deep_copy_configuration_into original cells = copy_cell original.name cells >>= λ (name, cells₁).
    copy_cell original.kube_master cells₁ >>= λ (kube_master, cells₂).
    copy_cell original.kube_config cells₂ >>= λ (kube_config, cells₃).
    returns (record { name = name; kube_master = kube_master; kube_config = kube_config }, cells₃)

unfoldable pub deep_copy_configuration :
    {C : Type 0} → Option ConfigurationCells → List C → Run (Option ConfigurationCells × List C)
unfolding copy_pointer deep_copy_configuration_into
deep_copy_configuration = copy_pointer deep_copy_configuration_into
