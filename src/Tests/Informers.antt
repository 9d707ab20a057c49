-- ===== src/Tests/Informers.antt =====
-- The informers' theorems on small factories.
use super_scheduling.Prelude.{
  ◌⊎◌, false, ◌≡◌, ◌≤◌, refl, Bool, true, false, some, none, String, ℤ, pos, lookup, insert,
  string_eq,
}
use super_scheduling.Informers.Factory.{
  InformerAddress, SharedInformerFactory, World, Calls, none_made, asked, ran, informer_for, start,
  is_started, wait_for_cache_sync, new_shared_informer_factory,
}
use super_scheduling.Informers.Factory.Once.{times}
use super_scheduling.Informers.Factory.Shared.{informer_for-again}
use super_scheduling.Informers.Factory.Runs.{new_factory, new_world, runs_once, wait-lookup}

-- A client is a text, and an informer the client and the period that it was made with.
abbrev Informer : Type 0
Informer = String × ℤ

abbrev make_informer : String → ℤ → Informer
make_informer client period = (client, period)

abbrev factory : SharedInformerFactory String Unit
factory = new_factory "cluster" (pos 30)

abbrev world : World Informer
world = new_world

abbrev first : InformerAddress × SharedInformerFactory String Unit × World Informer
unfolding informer_for
first = informer_for "Pod" make_informer factory world

abbrev second : InformerAddress × SharedInformerFactory String Unit × World Informer
unfolding informer_for first
second = informer_for "Node" make_informer first.1 first.2

abbrev began : SharedInformerFactory String Unit × World Informer
unfolding start second
began = start second.1 second.2

later-Calls : Calls first.1 first.2 began.0 began.1
unfolding began second
later-Calls = ran (asked "Node" make_informer none_made)

informer_for-again_example :
    informer_for "Pod" make_informer began.0 began.1 ≡ (first.0, began.0, began.1)
unfolding began second first
informer_for-again_example =
    informer_for-again "Pod" make_informer make_informer factory began.0 world began.1 later-Calls

all-Calls : Calls factory world began.0 began.1
unfolding began second first
all-Calls = ran (asked "Node" make_informer (asked "Pod" make_informer none_made))

runs_once_example : (times 1 began.1.runs ≤ 1) × (times 1 (start began.0 began.1).1.runs ≡ 1)
unfolding began second first informer_for lookup insert new_shared_informer_factory start
runs_once_example = runs_once "cluster" (pos 30) began.0 began.1 all-Calls "Node" 1 refl

abbrev always : InformerAddress → Bool
always a = true

wait-lookup_example :
    ((is_started began.0.started_informers "Pod" ≡ false)
      × (lookup "Pod" (wait_for_cache_sync always began.0) ≡ none))
    ⊎ ((is_started began.0.started_informers "Pod" ≡ true)
        × (a : InformerAddress) × (lookup "Pod" began.0.informers ≡ some a)
        × (lookup "Pod" (wait_for_cache_sync always began.0) ≡ some true))
wait-lookup_example = wait-lookup always "cluster" (pos 30) began.0 began.1 all-Calls "Pod"
