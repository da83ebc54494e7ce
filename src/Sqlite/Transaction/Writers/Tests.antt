-- ===== src/Sqlite/Transaction/Writers/Tests.antt =====
-- Two writes that are both busy once, and one whose callback panics.
use cartridge.Prelude.{
  ℕ, zero, suc, ◌/◌, ◌≤◌, ◌<◌, ◌≡◌, ◌⊎◌, refl, String, Bool, true, false, Option, none, some, List,
  [], ◌∷◌, length, arith, has_part, All,
}
use cartridge.Sqlite.Transaction.{
  TransactionConfig, Attempts, lock, unlock, begin_opens, body, commits, rollback, sleep,
  calculate_retry_delay, perform_write_with_mutex,
}
use cartridge.Sqlite.Transaction.Protocol.{idle}
use cartridge.Sqlite.Transaction.Writers.{
  Writer, hold_after, ready, mutex_after, Step, runs, Run, starts, steps, writers_of, total,
  in_transaction,
}
use cartridge.Sqlite.Transaction.Writers.Finish.{events_left, IsDone, writers_finish}
use cartridge.Sqlite.Transaction.Writers.Panic.{panicking, calls, held, panic_blocks}

program : Unit {0}
unfolding perform_write_with_mutex has_part calculate_retry_delay hold_after ready mutex_after
    panicking
program = tt

abbrev second_time : ℕ → Option String
second_time zero = some "database is locked"
second_time (suc i) = none

abbrev env : Attempts
env = record {
  begin_error = λ i. none;
  body_error = second_time;
  commit_error = λ i. none;
  jitter = λ d. d / 5;
  out_of_range = λ x. 9_223_372_036_854_775_808;
}

abbrev cfg : TransactionConfig
cfg = record { use_native_queuing = false; max_retries = 2; base_delay = 100; max_delay = 150 }

abbrev two : List (Attempts × TransactionConfig)
two = (env, cfg) ∷ (env, cfg) ∷ []

-- The second write has the mutex and a transaction, and the first one waits.
abbrev both : Bool × List Writer
both = (
  true,
  record { hold = idle; rest = (perform_write_with_mutex env cfg).events }
      ∷ record {
        hold = record { locked = true; in_tx = true };
        rest =
            body
            ∷ rollback
            ∷ unlock
            ∷ sleep 120
            ∷ lock
            ∷ begin_opens
            ∷ body
            ∷ commits
            ∷ unlock
            ∷ [];
      }
      ∷ [],
)

both_reached : Run (false, writers_of two) 2 both
unfolding program
both_reached =
    let first : Writer = record { hold = idle; rest = (perform_write_with_mutex env cfg).events } in
    steps 1 _ both (steps 0 _ _ starts (runs false idle lock _ (first ∷ []) [] refl))
      (runs true (record { locked = true; in_tx = false }) begin_opens _ (first ∷ []) [] refl)

writers_finish_example :
    (total in_transaction both.1 ≤ 1)
    × (2 ≤ total events_left (writers_of two))
    × (All IsDone both.1 ⊎ ((t : Bool × List Writer) × Step both t))
writers_finish_example = writers_finish two 2 both.0 both.1 both_reached

called_twice : 1 < calls (perform_write_with_mutex env cfg).events
unfolding program
called_twice = omega arith

panicked :
    panicking 1 (perform_write_with_mutex env cfg).events
    ≡ lock ∷ begin_opens ∷ body ∷ rollback ∷ unlock ∷ sleep 120 ∷ lock ∷ begin_opens ∷ body ∷ []
unfolding program
panicked = refl

panic_blocks_example :
    let es = panicking 1 (perform_write_with_mutex env cfg).events in
    Run
      (false, record { hold = idle; rest = es } ∷ writers_of two)
      (length es)
      (true, record { hold = held; rest = [] } ∷ writers_of two)
    × ((t : Bool × List Writer)
        → ¬ Step (true, record { hold = held; rest = [] } ∷ writers_of two) t)
panic_blocks_example = panic_blocks env cfg 1 two called_twice
