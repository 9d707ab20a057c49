-- ===== src/Tests/Copies.antt =====
-- The theorems about deep copies, for a list of one policy and for arguments with one cluster.
use super_scheduling.Prelude.{◌≡◌, refl, none, some, List, [], ◌∷◌, String, Returns, pos, arith}
use super_scheduling.DeepCopy.{UpdatePolicyCells, ConfigurationCells}
use super_scheduling.DeepCopy.Separate.{IsGrown, IsCopyOf}
use super_scheduling.DeepCopy.Arguments.{
  SchedulingArgsCells, ArgumentCell, text, clusters, deep_copy_scheduling_args,
}
use super_scheduling.DeepCopy.Arguments.Apart.{
  HeldClusters, AreClusterCopies, deep_copy_scheduling_args-IsCopyOf,
}
use super_scheduling.DeepCopy.Policies.{
  PolicyCells, PolicyListCells, Cell, placements, sequence, updates, selector, policies,
  deep_copy_list,
}
use super_scheduling.DeepCopy.Policies.Copier.{HeldDeep, IsDeepCopy}
use super_scheduling.DeepCopy.Policies.Whole.{
  HeldPolicies, ArePolicyCopies, deep_copy_list-IsDeepCopy,
}

-- A heap with one policy: its placements, the sequence of its update policy, its update policies,
-- its selector, and the slice that it stands in.
abbrev east_policy : PolicyCells String
east_policy = record {
  object_meta = "policy-zone";
  spec = record {
    topology_key = "zone";
    schedule_strategy = "Fill";
    deploy_placement = some 0;
    update_placement = some 2;
    label_selector = some 3;
  };
  status = record { placement = none };
}

abbrev rolling : UpdatePolicyCells
rolling = record { max_skew = pos 1; update_sequence = some 1 }

abbrev heap : List (Cell String String)
heap =
    placements (record { name = "east"; replicas = pos 2 } ∷ [])
    ∷ sequence ("east" ∷ "west" ∷ [])
    ∷ updates (rolling ∷ [])
    ∷ selector "app=web"
    ∷ policies (east_policy ∷ [])
    ∷ []

abbrev listed : PolicyListCells String
listed = record { list_meta = "7"; items = some 4 }

abbrev same_text : String → String
same_text s = s

held_policies : HeldDeep (HeldPolicies same_text same_text) (some 4) heap
held_policies = (
  policies (east_policy ∷ []),
  refl,
  (
    east_policy ∷ [],
    refl,
    (
      record {
        spec = record {
          deploy = omega arith;
          update = (updates (rolling ∷ []), refl, (rolling ∷ [], refl, (omega arith, tt)));
          label = (selector "app=web", refl, ("app=web", refl));
        };
        status = tt;
      },
      tt,
    ),
  ),
)

deep_copy_list-IsDeepCopy_example :
    Returns (deep_copy_list same_text same_text (some listed) heap) λ r.
      (copy : PolicyListCells String) × (r.0 ≡ some copy)
      × (copy.list_meta ≡ "7")
      × IsGrown heap r.1
      × IsDeepCopy (ArePolicyCopies same_text same_text) (some 4) copy.items heap r.1
deep_copy_list-IsDeepCopy_example =
    deep_copy_list-IsDeepCopy same_text same_text listed heap held_policies

abbrev east_cells : ConfigurationCells
east_cells = record { name = some 0; kube_master = none; kube_config = some 1 }

abbrev arguments : SchedulingArgsCells
arguments = record { kube_config_path = some 0; kube_master = none; cluster_configuration = some 2 }

abbrev argument_heap : List ArgumentCell
argument_heap = text "/east" ∷ text "east" ∷ clusters (("east", east_cells) ∷ []) ∷ []

held_clusters : HeldDeep HeldClusters (some 2) argument_heap
held_clusters = (
  clusters (("east", east_cells) ∷ []),
  refl,
  (("east", east_cells) ∷ [], refl, ((omega arith, tt, omega arith), tt)),
)

deep_copy_scheduling_args-IsCopyOf_example :
    Returns (deep_copy_scheduling_args (some arguments) argument_heap) λ r.
      (copy : SchedulingArgsCells) × (r.0 ≡ some copy)
      × IsGrown argument_heap r.1
      × IsCopyOf (some 0) copy.kube_config_path argument_heap r.1
      × IsCopyOf none copy.kube_master argument_heap r.1
      × IsDeepCopy AreClusterCopies (some 2) copy.cluster_configuration argument_heap r.1
deep_copy_scheduling_args-IsCopyOf_example =
    deep_copy_scheduling_args-IsCopyOf arguments argument_heap (omega arith) tt held_clusters
