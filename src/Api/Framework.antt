-- ===== src/Api/Framework.antt =====
-- The parts of the scheduler framework that the plugins call.
use super_scheduling.Prelude.{Option, List, String, Result, Error, ok, ◌≡◌}
use super_scheduling.Api.Kubernetes.{NodeInfo, Selector}
use super_scheduling.Api.Scheduling.{TopologySchedulingPolicy}

-- framework.Code, with the codes that the plugins name.
pub data Code : Type 0 where
  success unschedulable unschedulable_and_unresolvable error : Code

-- A *framework.Status, by the call that made it: nil, `AsStatus(err)`, `NewStatus(code, reasons…)`.
pub data Status : Type 0 where
  nil : Status
  as_status : Error → Status
  new_status : Code → List String → Status

-- The snapshot behind framework.Handle: `NodeInfos().List()` and `NodeInfos().Get(name)`.
pub record NodeInfoLister : Type 0 where
  pub list : Result (List NodeInfo)
  pub get : String → Result (Option NodeInfo)

-- `TopologySchedulingPolicies(namespace).Get(name)`, and `List` over a namespace.
pub record TopologySchedulingPolicyLister (LabelSelector : Type 0) : Type 0 where
  pub list : String → Selector → Result (List (TopologySchedulingPolicy LabelSelector))
  pub get : String → String → Result (TopologySchedulingPolicy LabelSelector)

-- framework.CycleState over values of the type `Data`: what is written under a key is read back,
-- and a write changes no other key.
pub record CycleState (Data : Type 0) : Type 1 where
  pub State : Type 0
  pub read : State → String → Result Data
  pub write : State → String → Data → State
  pub read-write : (s : State) (k : String) (d : Data) → read (write s k d) k ≡ ok d
