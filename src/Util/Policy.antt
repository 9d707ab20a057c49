-- ===== src/Util/Policy.antt =====
-- What `CovertPolicy` keeps of the placements.
use super_scheduling.Prelude.{
  Option, none, some, List, [], ◌∷◌, String, Map, lookup, insert, lookup-insert, IsMap,
  insert-IsMap, ℤ, ◌==◌, string_eq, if◌then◌else◌, ◌≡◌, refl, arith,
}
use super_scheduling.Api.Scheduling.{SchedulePolicy}
use super_scheduling.Util.{covert_policies, covert_policy}

-- The replicas of the last placement with a name.
pub last_replicas : String → List SchedulePolicy → Option ℤ
last_replicas name [] = none
last_replicas name (p ∷ dp) = elim (last_replicas name dp) [
  | some r ↦ some r
  | none ↦ if p.name == name then some p.replicas else none
]

lookup-covert_policies :
    (name : String) (dp : List SchedulePolicy) (policy : Map String ℤ)
    → lookup name (covert_policies dp policy)
      ≡ elim (last_replicas name dp) [ some r ↦ some r | none ↦ lookup name policy ]
unfolding covert_policies last_replicas
lookup-covert_policies name [] policy = refl
lookup-covert_policies name (p ∷ dp) policy = ground (
  arith,
  lookup-covert_policies name dp (insert p.name p.replicas policy),
  lookup-insert p.name name p.replicas policy,
)

-- Where a name is placed twice, the last placement counts; a name that is not placed has no entry.
pub lookup-covert_policy :
    (name : String) (dp : List SchedulePolicy)
    → lookup name (covert_policy dp) ≡ last_replicas name dp
unfolding covert_policy lookup
lookup-covert_policy name dp = ground (arith, lookup-covert_policies name dp [])

covert_policies-IsMap :
    (dp : List SchedulePolicy) (policy : Map String ℤ)
    → IsMap policy
    → IsMap (covert_policies dp policy)
unfolding covert_policies
covert_policies-IsMap [] policy distinct = distinct
covert_policies-IsMap (p ∷ dp) policy distinct =
    covert_policies-IsMap dp (insert p.name p.replicas policy)
      (insert-IsMap p.name p.replicas policy distinct)

pub covert_policy-IsMap : (dp : List SchedulePolicy) → IsMap (covert_policy dp)
unfolding covert_policy IsMap
covert_policy-IsMap dp = covert_policies-IsMap dp [] tt
