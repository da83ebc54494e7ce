-- ===== src/Sqlite/Transaction/Tests.antt =====
-- Runs of a write transaction, and its theorems at concrete inputs.
use cartridge.Prelude.{
  ℕ, zero, suc, ◌/◌, ◌<◌, ◌≡◌, ◌↔◌, refl, String, true, false, Option, none, some, [], ◌∷◌,
  has_part,
}
use cartridge.Sqlite.Transaction.{
  TransactionConfig, Attempts, lock, unlock, begin_opens, body, commits, rollback, sleep,
  failed_to_begin, failed_after_retries, calculate_retry_delay, perform_write_native,
  perform_write_with_mutex, perform_write_with_config,
}
use cartridge.Sqlite.Transaction.Outcome.{
  success, judge, verdict, AllRetried, perform_write-nil_iff,
}
use cartridge.Sqlite.Transaction.Strategies.{without_mutex, perform_write-strategies}
use cartridge.Sqlite.Transaction.Protocol.{follow, idle, perform_write-follow}

program : Unit {0}
unfolding perform_write_with_config has_part judge calculate_retry_delay
program = tt

-- Busy at the first attempt, committed at the second.
abbrev second_time : ℕ → Option String
second_time zero = some "database is locked"
second_time (suc i) = none

abbrev env : Attempts
env = record {
  begin_error = λ i. none;
  body_error = second_time;
  commit_error = λ i. none;
  jitter = λ d. d / 5;
  out_of_range = λ x. 9_223_372_036_854_775_808;
}

abbrev cfg : TransactionConfig
cfg = record { use_native_queuing = false; max_retries = 2; base_delay = 100; max_delay = 150 }

retried : perform_write_with_config env cfg ≡ record {
  events =
      lock
      ∷ begin_opens
      ∷ body
      ∷ rollback
      ∷ unlock
      ∷ sleep 120
      ∷ lock
      ∷ begin_opens
      ∷ body
      ∷ commits
      ∷ unlock
      ∷ [];
  result = none;
}
unfolding program
retried = refl

-- With no attempts allowed the callback never runs, and the write fails.
no_attempts :
    (perform_write_with_config env (record cfg { max_retries = 0 })).result
    ≡ some (failed_after_retries none)
unfolding program
no_attempts = refl

perform_write-strategies_example :
    ((perform_write_with_mutex env cfg).result ≡ (perform_write_native env cfg).result)
    × (without_mutex (perform_write_with_mutex env cfg).events
        ≡ (perform_write_native env cfg).events)
perform_write-strategies_example = perform_write-strategies env cfg

perform_write-nil_iff_example :
    (((perform_write_with_config env cfg).result ≡ none)
      ↔ ((k : ℕ) × (k < 2) × (verdict env k ≡ success) × AllRetried env 0 k))
    × ((k : ℕ) (e : String)
        → k < 2
        → AllRetried env 0 k
        → env.begin_error k ≡ some e
        → (perform_write_with_config env cfg).result ≡ some (failed_to_begin e))
perform_write-nil_iff_example = perform_write-nil_iff env cfg

perform_write-follow_example :
    (follow true idle (perform_write_with_mutex env cfg).events ≡ some idle)
    × (follow false idle (perform_write_native env cfg).events ≡ some idle)
perform_write-follow_example = perform_write-follow env cfg
