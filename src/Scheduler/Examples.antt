-- ===== src/Scheduler/Examples.antt =====
-- Two tasks, one of them due.
use asabru_commons.Base.{ℕ, List, [], ◌∷◌, true, codes, ◌==◌}
use asabru_commons.Scheduler.{SimpleScheduler}
use asabru_commons.Scheduler.Once.{
  Event, add_event, round_event, new_run, events, IsBalanced, events-IsBalanced,
}

abbrev some_events : List (Event ℕ)
some_events =
    add_event (record { name = codes "a"; time = 3; function = 1 })
    ∷ add_event (record { name = codes "b"; time = 9; function = 2 })
    ∷ round_event 5
    ∷ []

events-IsBalanced_example : IsBalanced (λ t. t.function == 1) (events some_events new_run)
events-IsBalanced_example = events-IsBalanced (λ t. t.function == 1) some_events

abbrev scheduler : SimpleScheduler ℕ
scheduler = record {
  tasks = record { name = codes "a"; time = 3; function = 1 } ∷ [];
  running = true;
}
