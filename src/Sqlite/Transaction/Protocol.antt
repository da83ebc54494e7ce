-- ===== src/Sqlite/Transaction/Protocol.antt =====
-- How a write uses the mutex and the database: a state machine over the events of a run.
use cartridge.Prelude.{
  ℕ, zero, suc, ◌≡◌, refl, ◌∙◌, Bool, true, false, not, ◌&&◌, ◌||◌, Option, none, some, List, [],
  ◌∷◌, ◌++◌, String, if◌then◌else◌, arith,
}
use cartridge.Sqlite.Transaction.{
  Attempts, TransactionConfig, Event, lock, unlock, begin_fails, begin_opens, body, commits,
  commit_fails, rollback, sleep, Run, native_round, mutex_round, pause, native_from, mutex_from,
  perform_write_native, perform_write_with_mutex,
}

-- Whether the run holds the mutex, and whether it has an open transaction.
pub record Hold : Type 0 where
  pub locked : Bool
  pub in_tx : Bool

abbrev pub idle : Hold
idle = record { locked = false; in_tx = false }

abbrev when : Bool → Hold → Option Hold
when b h = if b then some h else none

-- The rules. With `guarded` the database is used only under the mutex. Nothing sleeps, and the
-- mutex is not released, with a transaction open; a transaction ends by a commit or a rollback.
unfoldable pub allow : Bool → Hold → Event → Option Hold
allow guarded h lock = when (not h.locked) (record h { locked = true })
allow guarded h unlock = when (h.locked && not h.in_tx) (record h { locked = false })
allow guarded h begin_fails = when ((h.locked || not guarded) && not h.in_tx) h
allow guarded h begin_opens =
    when ((h.locked || not guarded) && not h.in_tx) (record h { in_tx = true })
allow guarded h body = when ((h.locked || not guarded) && h.in_tx) h
allow guarded h commits = when ((h.locked || not guarded) && h.in_tx) (record h { in_tx = false })
allow guarded h commit_fails = when ((h.locked || not guarded) && h.in_tx) h
allow guarded h rollback = when ((h.locked || not guarded) && h.in_tx) (record h { in_tx = false })
allow guarded h (sleep d) = when (not h.locked && not h.in_tx) h

unfoldable pub follow : Bool → Hold → List Event → Option Hold
unfolding allow
follow guarded h [] = some h
follow guarded h (e ∷ es) =
    let rest = λ (h' : Hold). follow guarded h' es in
    elim (allow guarded h e) [ none ↦ none | some h' ↦ rest h' ]

native_round-follow :
    (begun failed uncommitted : Option String) (again : Option String → Run)
    → ((e : Option String) → follow false idle (again e).events ≡ some idle)
    → follow false idle (native_round begun failed uncommitted again).events ≡ some idle
unfolding native_round follow
native_round-follow (some e) failed uncommitted again h = refl
native_round-follow none (some e) uncommitted again h = ground (arith, h (some e))
native_round-follow none none (some e) again h = ground (arith, h (some e))
native_round-follow none none none again h = refl

mutex_round-follow :
    (begun failed uncommitted : Option String) (again : Option String → Run)
    → ((e : Option String) → follow true idle (again e).events ≡ some idle)
    → follow true idle (mutex_round begun failed uncommitted again).events ≡ some idle
unfolding mutex_round follow
mutex_round-follow (some e) failed uncommitted again h = refl
mutex_round-follow none (some e) uncommitted again h = ground (arith, h (some e))
mutex_round-follow none none (some e) again h = ground (arith, h (some e))
mutex_round-follow none none none again h = refl

module _ (env : Attempts) (cfg : TransactionConfig) where
  pause-follow :
      (guarded : Bool) (i : ℕ) (es : List Event)
      → follow guarded idle (pause env cfg i ++ es) ≡ follow guarded idle es
  unfolding pause follow
  pause-follow guarded zero es = refl
  pause-follow guarded (suc i) es = refl

  native_from-follow :
      (left i : ℕ) (last : Option String)
      → follow false idle (native_from env cfg left i last).events ≡ some idle
  unfolding native_from
  native_from-follow zero i last = unfold follow in refl
  native_from-follow (suc left) i last =
      pause-follow false i _
      ∙ native_round-follow _ _ _ (native_from env cfg left (suc i))
          (native_from-follow left (suc i))

  mutex_from-follow :
      (left i : ℕ) (last : Option String)
      → follow true idle (mutex_from env cfg left i last).events ≡ some idle
  unfolding mutex_from
  mutex_from-follow zero i last = unfold follow in refl
  mutex_from-follow (suc left) i last =
      pause-follow true i _
      ∙ mutex_round-follow _ _ _ (mutex_from env cfg left (suc i)) (mutex_from-follow left (suc i))

  -- Whatever the errors, a write with the mutex uses the database only while it holds the mutex,
  -- never locks twice, never sleeps with the mutex or a transaction, and returns with the mutex
  -- released and no transaction open; a native write never sleeps or returns with a transaction
  -- open either.
  pub perform_write-follow :
      (follow true idle (perform_write_with_mutex env cfg).events ≡ some idle)
      × (follow false idle (perform_write_native env cfg).events ≡ some idle)
  unfolding perform_write_with_mutex perform_write_native
  perform_write-follow =
      (mutex_from-follow cfg.max_retries 0 none, native_from-follow cfg.max_retries 0 none)
