-- ===== src/Sqlite/Transaction/Strategies.antt =====
-- The two strategies of a write beside one another.
use mathlib.Core.Path.{ap₂}
use cartridge.Prelude.{
  ℕ, zero, suc, ◌≡◌, refl, sym, ◌∙◌, Bool, true, false, Option, none, some, List, ◌++◌, String,
  arith, keep, keep-append,
}
use cartridge.Sqlite.Transaction.{
  Attempts, TransactionConfig, Event, lock, unlock, Run, native_round, mutex_round, pause,
  native_from, mutex_from, perform_write_native, perform_write_with_mutex,
}
use cartridge.Sqlite.Transaction.Outcome.{mutex_from-first_final, native_from-first_final}

-- The events but for those of the mutex.
abbrev pub is_unlocked : Event → Bool
is_unlocked lock = false
is_unlocked unlock = false
is_unlocked _ = true

abbrev pub without_mutex : List Event → List Event
without_mutex es = keep is_unlocked es

mutex_round-events :
    (begun failed uncommitted : Option String) (again others : Option String → Run)
    → ((e : Option String) → without_mutex (again e).events ≡ (others e).events)
    → without_mutex (mutex_round begun failed uncommitted again).events
      ≡ (native_round begun failed uncommitted others).events
unfolding mutex_round native_round
mutex_round-events (some e) failed uncommitted again others h = refl
mutex_round-events none (some e) uncommitted again others h = ground (arith, h (some e))
mutex_round-events none none (some e) again others h = ground (arith, h (some e))
mutex_round-events none none none again others h = refl

without_mutex-pause :
    (env : Attempts) (cfg : TransactionConfig) (i : ℕ)
    → without_mutex (pause env cfg i) ≡ pause env cfg i
unfolding pause
without_mutex-pause env cfg zero = refl
without_mutex-pause env cfg (suc i) = refl

module _ (env : Attempts) (cfg : TransactionConfig) where
  mutex_from-events :
      (left i : ℕ) (last : Option String)
      → without_mutex (mutex_from env cfg left i last).events
        ≡ (native_from env cfg left i last).events
  unfolding mutex_from native_from
  mutex_from-events zero i last = refl
  mutex_from-events (suc left) i last =
      keep-append is_unlocked (pause env cfg i) _
      ∙ ap₂ ◌++◌ (without_mutex-pause env cfg i) (
          mutex_round-events _ _ _ (mutex_from env cfg left (suc i))
            (native_from env cfg left (suc i)) (mutex_from-events left (suc i)))

  -- The two write strategies return the same result, and but for the mutex do the same to the
  -- database and the clock, in the same order.
  pub perform_write-strategies :
      ((perform_write_with_mutex env cfg).result ≡ (perform_write_native env cfg).result)
      × (without_mutex (perform_write_with_mutex env cfg).events
          ≡ (perform_write_native env cfg).events)
  unfolding perform_write_with_mutex perform_write_native
  perform_write-strategies = (
    mutex_from-first_final env cfg cfg.max_retries 0 none
        ∙ sym (native_from-first_final env cfg cfg.max_retries 0 none),
    mutex_from-events cfg.max_retries 0 none,
  )
