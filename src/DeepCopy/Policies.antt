-- ===== src/DeepCopy/Policies.antt =====
-- The deep copies of TopologySchedulingPolicySpec, TopologySchedulingPolicy and its list, from
-- pkg/apis/scheduling/v1alpha1/zz_generated.deepcopy.go. All slices and pointers of a policy lead to
-- cells of one heap, as an update policy in a slice has a slice of its own.
pub mod Copier
pub mod Spec
pub mod Whole
use super_scheduling.Prelude.{
  Option, none, some, List, [], ◌∷◌, ◌++◌, String, length, get_elem?, ℤ, Run, returns, panics,
  ◌>>=◌,
}
use super_scheduling.Api.Scheduling.{SchedulePolicy}
use super_scheduling.Topology.Counters.{Address}
use super_scheduling.DeepCopy.{copy_cell, copy_pointer, UpdatePolicyCells, PolicyStatus}

-- TopologySchedulingPolicySpec, with the addresses of its slices and its label selector.
pub record SpecCells : Type 0 where
  pub topology_key : String
  pub schedule_strategy : String
  pub deploy_placement : Option Address
  pub update_placement : Option Address
  pub label_selector : Option Address

-- TopologySchedulingPolicy; `Meta` is the metadata of an object or a list.
pub record PolicyCells (Meta : Type 0) : Type 0 where
  pub object_meta : Meta
  pub spec : SpecCells
  pub status : PolicyStatus

pub record PolicyListCells (Meta : Type 0) : Type 0 where
  pub list_meta : Meta
  pub items : Option Address

pub data Cell (LabelSelector Meta : Type 0) : Type 0 where
  placements : List SchedulePolicy → Cell LabelSelector Meta
  sequence : List String → Cell LabelSelector Meta
  updates : List UpdatePolicyCells → Cell LabelSelector Meta
  selector : LabelSelector → Cell LabelSelector Meta
  policies : List (PolicyCells Meta) → Cell LabelSelector Meta

-- The loop over a slice: each element is copied in its turn.
unfoldable pub copy_elements :
    {A C : Type 0} → (A → List C → Run (A × List C)) → List A → List C → Run (List A × List C)
copy_elements copy_into [] cells = returns ([], cells)
copy_elements copy_into (x ∷ xs) cells = copy_into x cells >>= λ (copy, cells₁).
    copy_elements copy_into xs cells₁ >>= λ (copies, cells₂). returns (copy ∷ copies, cells₂)

-- UpdatePolicy.DeepCopyInto.
unfoldable pub copy_update_into :
    {C : Type 0} → UpdatePolicyCells → List C → Run (UpdatePolicyCells × List C)
unfolding copy_cell
copy_update_into original cells =
    copy_cell original.update_sequence cells >>= λ (update_sequence, cells').
    returns (record original { update_sequence = update_sequence }, cells')

-- A pointer to a slice or a value that holds pointers: `copy` makes the new cell of the old one.
unfoldable pub copy_deep :
    {C : Type 0}
    → (C → List C → Run (C × List C))
    → Option Address
    → List C
    → Run (Option Address × List C)
copy_deep copy none cells = returns (none, cells)
copy_deep copy (some old) cells = elim (get_elem? cells old) [
  | none ↦ panics
  | some cell ↦
      copy cell cells >>= λ (copied, cells'). returns (some (length cells'), cells' ++ copied ∷ [])
]

-- `copy_label_selector` and `copy_meta` are DeepCopyInto of types of Kubernetes.
module _ {LabelSelector Meta : Type 0} (copy_label_selector : LabelSelector → LabelSelector)
    (copy_meta : Meta → Meta) where
  -- The slices and pointers have the types of the fields, so a cell of another type is not met.
  unfoldable pub copy_updates :
      Cell LabelSelector Meta
      → List (Cell LabelSelector Meta)
      → Run (Cell LabelSelector Meta × List (Cell LabelSelector Meta))
  unfolding copy_elements copy_update_into
  copy_updates (updates us) cells = copy_elements copy_update_into us cells >>= λ (copies, cells').
      returns (updates copies, cells')
  copy_updates _ cells = panics

  unfoldable pub copy_selector :
      Cell LabelSelector Meta
      → List (Cell LabelSelector Meta)
      → Run (Cell LabelSelector Meta × List (Cell LabelSelector Meta))
  copy_selector (selector l) cells = returns (selector (copy_label_selector l), cells)
  copy_selector _ cells = panics

  unfoldable pub deep_copy_spec_into :
      SpecCells → List (Cell LabelSelector Meta) → Run (SpecCells × List (Cell LabelSelector Meta))
  unfolding copy_cell copy_deep copy_updates copy_selector
  deep_copy_spec_into original cells =
      copy_cell original.deploy_placement cells >>= λ (deploy_placement, cells₁).
      copy_deep copy_updates original.update_placement cells₁ >>= λ (update_placement, cells₂).
      copy_deep copy_selector original.label_selector cells₂ >>= λ (label_selector, cells₃).
      returns (
        record original {
          deploy_placement = deploy_placement;
          update_placement = update_placement;
          label_selector = label_selector;
        },
        cells₃,
      )

  unfoldable pub deep_copy_spec :
      Option SpecCells
      → List (Cell LabelSelector Meta)
      → Run (Option SpecCells × List (Cell LabelSelector Meta))
  unfolding copy_pointer deep_copy_spec_into
  deep_copy_spec = copy_pointer deep_copy_spec_into

  unfoldable pub deep_copy_policy_into :
      PolicyCells Meta
      → List (Cell LabelSelector Meta)
      → Run (PolicyCells Meta × List (Cell LabelSelector Meta))
  unfolding copy_cell deep_copy_spec_into
  deep_copy_policy_into original cells =
      deep_copy_spec_into original.spec cells >>= λ (spec, cells₁).
      copy_cell original.status.placement cells₁ >>= λ (placement, cells₂). returns (
        record {
          object_meta = copy_meta original.object_meta;
          spec = spec;
          status = record { placement = placement };
        },
        cells₂,
      )

  unfoldable pub deep_copy_policy :
      Option (PolicyCells Meta)
      → List (Cell LabelSelector Meta)
      → Run (Option (PolicyCells Meta) × List (Cell LabelSelector Meta))
  unfolding copy_pointer deep_copy_policy_into
  deep_copy_policy = copy_pointer deep_copy_policy_into

  unfoldable pub copy_policies :
      Cell LabelSelector Meta
      → List (Cell LabelSelector Meta)
      → Run (Cell LabelSelector Meta × List (Cell LabelSelector Meta))
  unfolding copy_elements deep_copy_policy_into
  copy_policies (policies ps) cells =
      copy_elements deep_copy_policy_into ps cells >>= λ (copies, cells').
      returns (policies copies, cells')
  copy_policies _ cells = panics

  unfoldable pub deep_copy_list :
      Option (PolicyListCells Meta)
      → List (Cell LabelSelector Meta)
      → Run (Option (PolicyListCells Meta) × List (Cell LabelSelector Meta))
  unfolding copy_pointer copy_deep copy_policies
  deep_copy_list = copy_pointer λ original cells.
      copy_deep copy_policies original.items cells >>= λ (items, cells').
      returns (record { list_meta = copy_meta original.list_meta; items = items }, cells')
