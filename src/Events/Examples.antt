-- ===== src/Events/Examples.antt =====
-- The theorems about the event bus at concrete handlers, and tests.
use opendeploy.Common.{ℕ, ◌≡◌, refl, true, some, List, [], ◌∷◌, ◌++◌, String}
use opendeploy.Common.Keyed.{lookup, insert, remove}
use opendeploy.Events.Bus.{
  Event, Outcome, done, failed, panicked, Handler, MemoryBus, new_memory_bus, subs_of, subscribe,
  unsubscribe, cut, publish,
}
use opendeploy.Events.Delivery.{
  IsValid, Change, add, cancel, change_all, change_all-IsValid, new-IsValid, ids, publish_calls,
}

abbrev logging : ℕ → Outcome → Handler String (List ℕ)
logging n o e log = (o, log ++ (n ∷ []))

-- three handlers, one of them cancelled
abbrev changes : List (Change String (List ℕ))
changes =
    add "module.installed" (logging 1 (panicked "nil map"))
    ∷ add "*" (logging 2 (failed "database"))
    ∷ add "module.installed" (logging 3 done)
    ∷ cancel "*" 9
    ∷ []

abbrev bus : MemoryBus String (List ℕ)
bus = change_all changes new_memory_bus

change_all-IsValid_example : IsValid (change_all changes new_memory_bus)
change_all-IsValid_example = change_all-IsValid changes new_memory_bus new-IsValid

abbrev event : Event String
event = record { event_type = "module.installed"; payload = "php" }

publish_calls_example :
    (publish true (some event) bus []).1
    ≡ [] ++ ids (subs_of "module.installed" bus ++ subs_of "*" bus)
unfolding subscribe unsubscribe cut lookup insert remove
publish_calls_example =
    publish_calls bus event [] ((λ e log. refl), ((λ e log. refl), ((λ e log. refl), tt)))
