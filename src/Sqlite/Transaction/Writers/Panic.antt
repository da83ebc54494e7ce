-- ===== src/Sqlite/Transaction/Writers/Panic.antt =====
-- A callback that panics, where the program goes on, as behind the recover middleware. Nothing is
-- deferred: the events of the write end with the callback's call.
use cartridge.Prelude.{
  ℕ, zero, suc, ◌≡◌, ◌<◌, refl, sym, subst, Bool, true, false, Option, none, some, List, [], ◌∷◌,
  length, All, arith, inl, inr, ◌≢◌, Bool-cases, String,
}
use cartridge.Sqlite.Transaction.{
  Attempts, TransactionConfig, Event, lock, unlock, begin_fails, begin_opens, body, commits,
  commit_fails, rollback, sleep, perform_write_with_mutex, mutex_from, mutex_round, is_busy_error,
  Run as WriteRun,
}
use cartridge.Sqlite.Transaction.Protocol.{Hold, idle, allow, follow, perform_write-follow}
use cartridge.Sqlite.Transaction.Writers.{
  Writer, hold_after, ready, mutex_after, Step, runs, Run, starts, steps, writers_of, All-middle,
}

-- How often a write calls its callback, and its events when call number `n`, from zero, panics.
abbrev pub calls : List Event → ℕ
calls [] = 0
calls (body ∷ es) = suc (calls es)
calls (_ ∷ es) = calls es

unfoldable pub panicking : ℕ → List Event → List Event
panicking n [] = []
panicking zero (body ∷ es) = body ∷ []
panicking (suc n) (body ∷ es) = body ∷ panicking n es
panicking n (e ∷ es) = e ∷ panicking n es

abbrev pub held : Hold
held = record { locked = true; in_tx = true }

rest_follows :
    (h k : Hold) (e : Event) (es : List Event)
    → follow true h (e ∷ es) ≡ some k
    → (allow true h e ≡ some (hold_after h e)) × (follow true (hold_after h e) es ≡ some k)
unfolding follow hold_after
rest_follows h k lock es f = (ground arith, ground arith)
rest_follows h k unlock es f = (ground arith, ground arith)
rest_follows h k begin_fails es f = (ground arith, ground arith)
rest_follows h k begin_opens es f = (ground arith, ground arith)
rest_follows h k body es f = (ground arith, ground arith)
rest_follows h k commits es f = (ground arith, ground arith)
rest_follows h k commit_fails es f = (ground arith, ground arith)
rest_follows h k rollback es f = (ground arith, ground arith)
rest_follows h k (sleep d) es f = (ground arith, ground arith)

allowed-follow :
    (h h' k : Hold) (e : Event) (es : List Event)
    → allow true h e ≡ some h'
    → follow true h' es ≡ some k
    → follow true h (e ∷ es) ≡ some k
unfolding follow
allowed-follow h h' k e es a f = rw (a, follow) f

body_held : (h k : Hold) → allow true h body ≡ some k → follow true h (body ∷ []) ≡ some held
unfolding follow
body_held h k a = ground (arith, a)

panicking-follow :
    (n : ℕ) (h k : Hold) (es : List Event)
    → follow true h es ≡ some k
    → n < calls es
    → follow true h (panicking n es) ≡ some held
unfolding panicking
panicking-follow n h k [] f c = absurd (omega (arith, c))
panicking-follow zero h k (body ∷ es) f c = body_held h _ (rest_follows h k body es f).0
panicking-follow (suc n) h k (body ∷ es) f c =
    let (a, r) = rest_follows h k body es f in
    allowed-follow h _ held body _ a (panicking-follow n _ k es r (omega (arith, c)))
panicking-follow n h k (e ∷ es) f c =
    let (a, r) = rest_follows h k e es f in
    allowed-follow h _ held e _ a (panicking-follow n _ k es r c)

Run-first :
    {s t : Bool × List Writer} (n : ℕ) (u : Bool × List Writer)
    → Step s t
    → Run t n u
    → Run s (suc n) u
Run-first {s} {t} _ _ h starts = steps zero s t starts h
Run-first _ u h (steps n x _ r k) = steps (suc n) x u (Run-first n x h r) k

ready_allowed : (h k : Hold) (e : Event) → allow true h e ≡ some k → ready h.locked e ≡ true
unfolding ready allow
ready_allowed h k lock a = ground (arith, a)
ready_allowed h k _ a = refl

mutex_after-hold_after : (h : Hold) (e : Event) → mutex_after h.locked e ≡ (hold_after h e).locked
unfolding mutex_after hold_after
mutex_after-hold_after h lock = refl
mutex_after-hold_after h unlock = refl
mutex_after-hold_after h begin_fails = refl
mutex_after-hold_after h begin_opens = refl
mutex_after-hold_after h body = refl
mutex_after-hold_after h commits = refl
mutex_after-hold_after h commit_fails = refl
mutex_after-hold_after h rollback = refl
mutex_after-hold_after h (sleep d) = refl

-- A write that keeps the rules runs to its end while the others stand still.
runs_alone :
    (h k : Hold) (es : List Event) (ws : List Writer)
    → follow true h es ≡ some k
    → Run
        (h.locked, record { hold = h; rest = es } ∷ ws)
        (length es)
        (k.locked, record { hold = k; rest = [] } ∷ ws)
runs_alone h k [] ws f =
    let e : h ≡ k = unfold follow in ground (arith, f) in
    subst
      (λ j.
        Run (h.locked, record { hold = h; rest = [] } ∷ ws) 0
          (j.locked, record { hold = j; rest = [] } ∷ ws))
      e starts
runs_alone h k (e ∷ es) ws f =
    let (a, r) = rest_follows h k e es f in
    let later = runs_alone (hold_after h e) k es ws r in
    let moved =
      subst
        (λ m.
          Run (m, record { hold = hold_after h e; rest = es } ∷ ws) (length es)
            (k.locked, record { hold = k; rest = [] } ∷ ws))
        (sym (mutex_after-hold_after h e)) later in
    Run-first (length es) _ (runs h.locked h e es [] ws (ready_allowed h _ e a)) moved

-- At its end, or at a lock.
abbrev IsBlocked : List Event → Type 0
IsBlocked [] = Unit
IsBlocked (lock ∷ es) = Unit
IsBlocked (_ ∷ es) = ⊥

blocked_event :
    (m : Bool) (e : Event) (es : List Event) → IsBlocked (e ∷ es) → ready m e ≡ true → m ≢ true
unfolding ready
blocked_event m lock es b r t = absurd (ground (arith, r, t))
blocked_event m _ es b r t = absurd b

blocked-Step : (s t : Bool × List Writer) → Step s t → All (λ w. IsBlocked w.rest) s.1 → s.0 ≢ true
blocked-Step _ _ (runs m h e es ps qs r) b =
    blocked_event m e es
      (All-middle (λ w. IsBlocked w.rest) ps (record { hold = h; rest = e ∷ es }) qs b) r

mutex_round-IsBlocked :
    (begun failed uncommitted : Option String) (again : Option String → WriteRun)
    → IsBlocked (mutex_round begun failed uncommitted again).events
unfolding mutex_round
mutex_round-IsBlocked (some e) failed uncommitted again = tt
mutex_round-IsBlocked none (some e) uncommitted again = elim (Bool-cases (is_busy_error (some e))) [
  | inl b ↦ rw b tt
  | inr b ↦ rw b tt
]
mutex_round-IsBlocked none none (some e) again = elim (Bool-cases (is_busy_error (some e))) [
  | inl b ↦ rw b tt
  | inr b ↦ rw b tt
]
mutex_round-IsBlocked none none none again = tt

mutex_from-IsBlocked :
    (env : Attempts) (cfg : TransactionConfig) (left : ℕ)
    → IsBlocked (mutex_from env cfg left 0 none).events
unfolding mutex_from
mutex_from-IsBlocked env cfg zero = tt
mutex_from-IsBlocked env cfg (suc left) =
    mutex_round-IsBlocked (env.begin_error 0) (env.body_error 0) (env.commit_error 0)
      (mutex_from env cfg left 1)

writers_of-IsBlocked :
    (jobs : List (Attempts × TransactionConfig)) → All (λ w. IsBlocked w.rest) (writers_of jobs)
unfolding perform_write_with_mutex
writers_of-IsBlocked [] = tt
writers_of-IsBlocked ((env, cfg) ∷ jobs) =
    (mutex_from-IsBlocked env cfg cfg.max_retries, writers_of-IsBlocked jobs)

-- A callback that panics at one of its calls leaves the mutex locked and its transaction open, and
-- from then on no write with the mutex that has not begun makes a step.
pub panic_blocks :
    (env : Attempts) (cfg : TransactionConfig) (n : ℕ) (jobs : List (Attempts × TransactionConfig))
    → n < calls (perform_write_with_mutex env cfg).events
    → let es = panicking n (perform_write_with_mutex env cfg).events in
      Run
        (false, record { hold = idle; rest = es } ∷ writers_of jobs)
        (length es)
        (true, record { hold = held; rest = [] } ∷ writers_of jobs)
      × ((t : Bool × List Writer)
          → ¬ Step (true, record { hold = held; rest = [] } ∷ writers_of jobs) t)
panic_blocks env cfg n jobs c =
    let es = (perform_write_with_mutex env cfg).events in
    (
      runs_alone idle held (panicking n es) (writers_of jobs)
          (panicking-follow n idle idle es (perform_write-follow env cfg).0 c),
      λ t s. blocked-Step _ t s (tt, writers_of-IsBlocked jobs) refl,
    )
