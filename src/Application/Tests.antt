-- ===== src/Application/Tests.antt =====
-- An application of three workers, and its theorems at concrete outcomes.
use cartridge.Prelude.{◌≡◌, refl, nat_beq, if◌then◌else◌, false, none, some, List, [], ◌∷◌}
use cartridge.Application.{
  Action, starts_worker, stops_worker, serves, Outcomes, Application, add_worker, start,
  start_async,
}
use cartridge.Application.Signals.{
  Process, killed, Reached, steps, launches, signal_kills, launch, run_with_timeout-IsUnsignalled,
}
use cartridge.Application.Workers.{start-failed}

program : Unit {0}
unfolding add_worker launch
program = tt

abbrev second_fails : Outcomes
second_fails = record {
  worker = λ w. if nat_beq w 2 then some "no such queue" else none;
  server = none;
  shutdown = none;
}

abbrev all_start : Outcomes
all_start = record { worker = λ w. none; server = none; shutdown = some "deadline exceeded" }

added : add_worker 3 (record { workers = 1 ∷ 2 ∷ [] }) ≡ record { workers = 1 ∷ 2 ∷ 3 ∷ [] }
unfolding program
added = refl

abbrev tried : List Action
tried = starts_worker 1 ∷ starts_worker 2 ∷ stops_worker 1 ∷ stops_worker 2 ∷ stops_worker 3 ∷ []

start-failed_example :
    (start second_fails (record { workers = 1 ∷ 2 ∷ 3 ∷ [] }) ≡ (tried, some "no such queue"))
    × (start_async second_fails (record { workers = 1 ∷ 2 ∷ 3 ∷ [] })
        ≡ (tried, some "no such queue"))
start-failed_example = start-failed second_fails (1 ∷ []) 2 (3 ∷ []) "no such queue" (refl, tt) refl

abbrev two_workers : Application
two_workers = record { workers = 1 ∷ 2 ∷ [] }

abbrev interrupted : Process
interrupted = record {
  phase = killed;
  actions = starts_worker 1 ∷ starts_worker 2 ∷ serves ∷ [];
  closed = false;
}

interrupted_reached : Reached all_start two_workers interrupted
unfolding program
interrupted_reached = steps _ _ launches (signal_kills _ _)

run_with_timeout-IsUnsignalled_example :
    (interrupted.actions ≡ starts_worker 1 ∷ starts_worker 2 ∷ serves ∷ []) × Unit {0}
run_with_timeout-IsUnsignalled_example =
    run_with_timeout-IsUnsignalled all_start two_workers interrupted interrupted_reached
      (refl, (refl, tt)) refl
