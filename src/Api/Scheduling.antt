-- ===== src/Api/Scheduling.antt =====
-- pkg/apis/scheduling/v1alpha1/types.go and pkg/common/constraint.go.
use text.Mathlib.Text.{◌==◌ as str_eq}
use super_scheduling.Prelude.{
  Bool, Option, List, String, Map, Eq, ℤ, ◌&&◌, ◌↔◌, ◌≡◌, true, arith, eq_iff,
}
use super_scheduling.Api.Kubernetes.{Selector}

-- A topology value, and the replicas that it should have.
pub record SchedulePolicy : Type 0 where
  pub name : String
  pub replicas : ℤ

pub record UpdatePolicy : Type 0 where
  pub max_skew : ℤ
  pub update_sequence : List String

-- `LabelSelector` is metav1.LabelSelector.
pub record TopologySchedulingPolicySpec (LabelSelector : Type 0) : Type 0 where
  pub topology_key : String
  pub schedule_strategy : String
  pub deploy_placement : List SchedulePolicy
  pub update_placement : List UpdatePolicy
  pub label_selector : Option LabelSelector

pub record TopologySchedulingPolicyStatus : Type 0 where
  pub placement : List SchedulePolicy

-- The object metadata is its name and namespace.
pub record TopologySchedulingPolicy (LabelSelector : Type 0) : Type 0 where
  pub name : String
  pub namespace : String
  pub spec : TopologySchedulingPolicySpec LabelSelector
  pub status : TopologySchedulingPolicyStatus

abbrev pub schedule_strategy_fill : String
schedule_strategy_fill = "Fill"

abbrev pub schedule_strategy_balance : String
schedule_strategy_balance = "Balance"

-- A policy in the form that the plugins work with.
pub record TopologySchedulingConstraint : Type 0 where
  pub topology_key : String
  pub schedule_policy : Map String ℤ
  pub selector : Selector

pub record TopologyPair : Type 0 where
  pub key : String
  pub value : String

abbrev pub pair_beq : TopologyPair → TopologyPair → Bool
pair_beq p q = str_eq p.key q.key && str_eq p.value q.value

pub pair_beq_iff : (p q : TopologyPair) → (pair_beq p q ≡ true) ↔ (p ≡ q)
pair_beq_iff p q = ground (arith, eq_iff p.key q.key, eq_iff p.value q.value)

instance abbrev pub topology_pair_eq : Eq TopologyPair
topology_pair_eq = record { beq = pair_beq; beq_iff = pair_beq_iff }
