-- ===== src/Sqlite/Transaction.antt =====
-- sqlite/transaction.go: write transactions that are retried on busy errors. What the database and
-- the callback answer at each attempt is an argument, and so is the random jitter. A run lists what
-- it does to the mutex, the database and the clock. Logging is left out. Delays are nanoseconds in
-- an int64, of which the model has the bits: a number from 2^63 on is a negative delay. float64
-- scales a delay below 2^53 by a power of two exactly; what the conversion to int64 gives for a
-- product out of its range is up to the implementation of Go and an argument.
pub mod Outcome
pub mod Strategies
pub mod Protocol
pub mod Writers
pub mod Delays
mod Tests
use cartridge.Prelude.{
  ℕ, zero, suc, ◌+◌, ◌-◌, ◌*◌, ◌%◌, ◌^◌, Bool, true, false, ◌||◌, ◌&&◌, String, Option, none, some,
  List, [], ◌∷◌, ◌++◌, ltb, if◌then◌else◌, has_part,
}

pub record TransactionConfig : Type 0 where
  pub use_native_queuing : Bool
  pub max_retries : ℕ
  pub base_delay : ℕ
  pub max_delay : ℕ

abbrev pub default_transaction_config : TransactionConfig
default_transaction_config = record {
  use_native_queuing = true;
  max_retries = 10;
  base_delay = 100_000_000;
  max_delay = 5_000_000_000;
}

-- The errors of a transaction at each attempt; `none` is nil. Errors are their messages.
pub record Attempts : Type 0 where
  pub begin_error : ℕ → Option String
  pub body_error : ℕ → Option String
  pub commit_error : ℕ → Option String
  pub jitter : ℕ → ℕ
  pub out_of_range : ℕ → ℕ

pub data Event : Type 0 where
  lock unlock begin_fails begin_opens body commits commit_fails rollback : Event
  sleep : ℕ → Event

-- The error that is returned, by the `%w` that wraps the message.
pub data Failure : Type 0 where
  failed_to_begin : String → Failure
  returned : String → Failure
  failed_to_commit : String → Failure
  failed_after_retries : Option String → Failure

pub record Run : Type 0 where
  pub events : List Event
  pub result : Option Failure

abbrev pub after : List Event → Run → Run
after es r = record r { events = es ++ r.events }

unfoldable pub is_busy_error : Option String → Bool
is_busy_error none = false
is_busy_error (some msg) =
    has_part msg "database is locked"
    || has_part msg "database is busy"
    || has_part msg "locked"
    || has_part msg "busy"
    || has_part msg "SQL statements in progress"

-- time.Duration of a float64 that is no fraction: 2^63 and more is out of range.
unfoldable pub to_duration : (ℕ → ℕ) → ℕ → ℕ
to_duration out_of_range x =
    if ltb x 9_223_372_036_854_775_808 then x else out_of_range x % 18_446_744_073_709_551_616

-- A delay that wrapped around is negative and so not above the maximum.
unfoldable pub calculate_retry_delay : ℕ → ℕ → ℕ → (ℕ → ℕ) → (ℕ → ℕ) → ℕ
unfolding to_duration
calculate_retry_delay attempt base max jitter out_of_range =
    let scaled = to_duration out_of_range (base * 2 ^ (attempt - 1)) in
    let delay = if ltb max scaled && ltb scaled 9_223_372_036_854_775_808 then max else scaled in
    (delay + jitter delay) % 18_446_744_073_709_551_616

-- One round of the native loop: the errors of Begin, of the callback and of Commit, and what the
-- next rounds do with the error that `continue` leaves.
unfoldable pub native_round :
    Option String → Option String → Option String → (Option String → Run) → Run
unfolding is_busy_error
native_round (some e) failed uncommitted again = record {
  events = begin_fails ∷ [];
  result = some (failed_to_begin e);
}
native_round none (some e) uncommitted again =
    if is_busy_error (some e)
    then after (begin_opens ∷ body ∷ rollback ∷ []) (again (some e))
    else record { events = begin_opens ∷ body ∷ rollback ∷ []; result = some (returned e) }
native_round none none (some e) again =
    if is_busy_error (some e)
    then after (begin_opens ∷ body ∷ commit_fails ∷ rollback ∷ []) (again (some e))
    else record {
      events = begin_opens ∷ body ∷ commit_fails ∷ rollback ∷ [];
      result = some (failed_to_commit e);
    }
native_round none none none again = record {
  events = begin_opens ∷ body ∷ commits ∷ [];
  result = none;
}

-- The same with the mutex, which each branch unlocks itself.
unfoldable pub mutex_round :
    Option String → Option String → Option String → (Option String → Run) → Run
unfolding is_busy_error
mutex_round (some e) failed uncommitted again = record {
  events = lock ∷ begin_fails ∷ unlock ∷ [];
  result = some (failed_to_begin e);
}
mutex_round none (some e) uncommitted again =
    if is_busy_error (some e)
    then after (lock ∷ begin_opens ∷ body ∷ rollback ∷ unlock ∷ []) (again (some e))
    else record {
      events = lock ∷ begin_opens ∷ body ∷ rollback ∷ unlock ∷ [];
      result = some (returned e);
    }
mutex_round none none (some e) again =
    if is_busy_error (some e)
    then after (lock ∷ begin_opens ∷ body ∷ commit_fails ∷ rollback ∷ unlock ∷ []) (again (some e))
    else record {
      events = lock ∷ begin_opens ∷ body ∷ commit_fails ∷ rollback ∷ unlock ∷ [];
      result = some (failed_to_commit e);
    }
mutex_round none none none again = record {
  events = lock ∷ begin_opens ∷ body ∷ commits ∷ unlock ∷ [];
  result = none;
}

module _ (env : Attempts) (cfg : TransactionConfig) where
  -- No sleep before the first attempt.
  unfoldable pub pause : ℕ → List Event
  pause zero = []
  pause (suc i) =
      sleep (calculate_retry_delay (suc i) cfg.base_delay cfg.max_delay env.jitter env.out_of_range)
      ∷ []

  -- The loop, with the attempts that are left, the attempt's index and the last error.
  unfoldable pub native_from : ℕ → ℕ → Option String → Run
  unfolding native_round pause
  native_from zero i last = record { events = []; result = some (failed_after_retries last) }
  native_from (suc left) i last = after (pause i) (
      native_round (env.begin_error i) (env.body_error i) (env.commit_error i)
        (native_from left (suc i)))

  unfoldable pub perform_write_native : Run
  unfolding native_from
  perform_write_native = native_from cfg.max_retries 0 none

  unfoldable pub mutex_from : ℕ → ℕ → Option String → Run
  unfolding mutex_round pause
  mutex_from zero i last = record { events = []; result = some (failed_after_retries last) }
  mutex_from (suc left) i last = after (pause i) (
      mutex_round (env.begin_error i) (env.body_error i) (env.commit_error i)
        (mutex_from left (suc i)))

  unfoldable pub perform_write_with_mutex : Run
  unfolding mutex_from
  perform_write_with_mutex = mutex_from cfg.max_retries 0 none

  unfoldable pub perform_write_with_config : Run
  unfolding perform_write_native perform_write_with_mutex
  perform_write_with_config =
      if cfg.use_native_queuing then perform_write_native else perform_write_with_mutex

unfoldable pub perform_write : Attempts → Run
unfolding perform_write_with_config
perform_write env = perform_write_with_config env default_transaction_config
