-- ===== src/Tests/Tasks.antt =====
-- The scheduler at small inputs.
use recap_server.Prelude.{ℕ, ◌≡◌, refl, true, [], ◌∷◌, some, none, ◌≤◌, arith, get_elem?}
use recap_server.Scheduler.{
  Task, Scheduler, new, contains, add_task, cancel_task, is_top, fire, wait, wake, shutdown,
  run_task, taken,
}
use recap_server.Scheduler.Steps.{
  adds, waits, fires, runs, Run, stays, goes, stays_without, goes_without, runs_of,
  cancel_task-RunWithout, fire-fire,
}
use recap_server.Scheduler.Waits.{OnTime, Run-OnTime, Run-wake}
use recap_server.Scheduler.Progress.{queued, Run-HasTop}

abbrev first : Task
first = record { execution_point = 15; function = 7; id = 1 }

abbrev second : Task
second = record { execution_point = 12; function = 8; id = 1 }

-- Two threads add a task each; both get the number 1.
abbrev two_added : Scheduler
two_added = (add_task (add_task new 0 10 5 7).0 1 11 1 8).0

two_added_tasks : two_added.tasks ≡ second ∷ first ∷ []
unfolding add_task
two_added_tasks = refl

abbrev two_added-Run : Run new two_added
two_added-Run =
    goes (goes (stays new) (adds new 0 10 5 7)) (adds (add_task new 0 10 5 7).0 1 11 1 8)

Run-HasTop_example :
    (queued 1 two_added.tasks ≡ true)
    × ((i : ℕ) × (t : Task) × (get_elem? two_added.tasks i ≡ some t)
        × (is_top t two_added.tasks ≡ true))
unfolding add_task contains
Run-HasTop_example = Run-HasTop two_added 1 two_added-Run refl

-- The thread waits for the second task, which is the earlier one, and takes it.
abbrev waited : Scheduler
waited = wait two_added second

waited-Run : Run new waited
unfolding add_task is_top new
waited-Run = goes two_added-Run (waits two_added 0 second refl refl refl)

abbrev second_taken : Scheduler
second_taken = fire waited 13 second 0

second_taken-Run : Run new second_taken
unfolding add_task is_top wait new
second_taken-Run = goes waited-Run (fires waited 12 13 0 second refl (omega arith) refl refl)

Run-OnTime_example : OnTime (taken second_taken)
Run-OnTime_example = Run-OnTime second_taken second_taken-Run

Run-wake_example :
    ((i : ℕ) × (t : Task) × (get_elem? waited.tasks i ≡ some t)
      × (is_top t waited.tasks ≡ true)
      × (t.execution_point ≤ 12)
      × ((now : ℕ) → wake waited now i ≡ some (fire waited now t i)))
    × ((now i : ℕ) → wake (shutdown waited) now i ≡ none)
unfolding add_task wait new
Run-wake_example = Run-wake waited 12 waited-Run refl refl

fire-fire_example :
    taken (fire (run_task (fire waited 13 second 0) second 13) 15 first 0)
    ≡ taken (fire waited 13 second 0)
unfolding add_task contains wait
fire-fire_example = fire-fire waited 13 15 0 0 second first refl refl

-- The number is cancelled while the task is at work, and the task runs to its end all the same.
abbrev cancelled : Scheduler
cancelled = cancel_task second_taken 1

cancel_task-RunWithout_example :
    runs_of 1 (taken (run_task cancelled second 13)) ≡ runs_of 1 (taken second_taken)
unfolding add_task cancel_task is_top wait fire contains
cancel_task-RunWithout_example =
    cancel_task-RunWithout second_taken (run_task cancelled second 13) 1 (λ e. ground (arith, e))
      (goes_without (stays_without cancelled) (runs cancelled second 13 refl) tt)

ran_cancelled : (run_task cancelled second 13).ran ≡ (second, 13) ∷ []
unfolding add_task cancel_task wait fire run_task
ran_cancelled = refl
