-- ===== src/Tests/Policy.antt =====
-- The theorem about the map of a policy's placements, on a value that is placed twice.
use super_scheduling.Prelude.{List, [], ◌∷◌, lookup, pos, ◌≡◌, string_eq}
use super_scheduling.Api.Scheduling.{SchedulePolicy}
use super_scheduling.Util.{covert_policy}
use super_scheduling.Util.Policy.{last_replicas, lookup-covert_policy}

abbrev placements : List SchedulePolicy
placements =
    record { name = "a"; replicas = pos 2 }
    ∷ record { name = "b"; replicas = pos 1 }
    ∷ record { name = "a"; replicas = pos 3 }
    ∷ []

lookup-covert_policy_example : lookup "a" (covert_policy placements) ≡ last_replicas "a" placements
lookup-covert_policy_example = lookup-covert_policy "a" placements
