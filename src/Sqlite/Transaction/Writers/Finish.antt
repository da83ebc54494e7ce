-- ===== src/Sqlite/Transaction/Writers/Finish.antt =====
-- Writes with the mutex exclude one another, and all of them return.
use cartridge.Prelude.{
  ℕ, suc, ◌+◌, ◌≡◌, ◌≤◌, ◌⊎◌, inl, inr, refl, Bool, true, false, some, List, [], ◌∷◌, length, All,
  arith, Bool-cases,
}
use cartridge.Sqlite.Transaction.{Attempts, TransactionConfig, Event, lock}
use cartridge.Sqlite.Transaction.Protocol.{Hold, idle, follow, perform_write-follow}
use cartridge.Sqlite.Transaction.Writers.{
  Writer, hold_after, ready, Step, runs, Run, starts, steps, writers_of, one_if, total, locked_by,
  in_transaction, Keeps, Serial, Step-Serial, total-append,
}

writers_of-Keeps : (jobs : List (Attempts × TransactionConfig)) → All Keeps (writers_of jobs)
writers_of-Keeps [] = tt
writers_of-Keeps ((env, cfg) ∷ jobs) = (
  record { follows = (perform_write-follow env cfg).0; covered = omega arith },
  writers_of-Keeps jobs,
)

writers_of-total :
    (jobs : List (Attempts × TransactionConfig)) → total locked_by (writers_of jobs) ≡ 0
writers_of-total [] = refl
writers_of-total (j ∷ jobs) = omega (arith, writers_of-total jobs)

Run-Serial :
    (jobs : List (Attempts × TransactionConfig)) (n : ℕ) (t : Bool × List Writer)
    → Run (false, writers_of jobs) n t
    → Serial t
Run-Serial jobs _ _ starts = record {
  counted = writers_of-total jobs;
  keeping = writers_of-Keeps jobs;
}
Run-Serial jobs _ t (steps n x _ r s) = Step-Serial x t s (Run-Serial jobs n x r)

-- The events that are left.
abbrev pub events_left : Writer → ℕ
events_left w = length w.rest

Step-events_left :
    (s t : Bool × List Writer) → Step s t → total events_left s.1 ≡ suc (total events_left t.1)
Step-events_left _ _ (runs m h e es ps qs r) =
    let old = total-append events_left ps (record { hold = h; rest = e ∷ es }) qs in
    let new = total-append events_left ps (record { hold = hold_after h e; rest = es }) qs in
    omega (arith, old, new)

Run-events_left :
    (s : Bool × List Writer) (n : ℕ) (t : Bool × List Writer)
    → Run s n t
    → n + total events_left t.1 ≡ total events_left s.1
Run-events_left s _ _ starts = omega arith
Run-events_left s _ t (steps n x _ r h) =
    omega (arith, Run-events_left s n x r, Step-events_left x t h)

covered-total : (ws : List Writer) → All Keeps ws → total in_transaction ws ≤ total locked_by ws
covered-total [] k = omega arith
covered-total (w ∷ ws) (k, r) = omega (arith, k.covered, covered-total ws r)

abbrev pub IsDone : Writer → Type 0
IsDone w = w.rest ≡ []

abbrev Moves : Bool × List Writer → Type 0
Moves s = (t : Bool × List Writer) × Step s t

-- A step among some of the goroutines is one among more.
Moves-more : (m : Bool) (w : Writer) (ws : List Writer) → Moves (m, ws) → Moves (m, w ∷ ws)
Moves-more _ w _ (_, runs m h e es ps qs r) = (_, runs m h e es (w ∷ ps) qs r)

ready_free : (e : Event) → ready false e ≡ true
unfolding ready
ready_free lock = refl
ready_free _ = refl

head_free :
    (h : Hold) (es : List Event) (ws : List Writer)
    → (es ≡ []) ⊎ Moves (false, record { hold = h; rest = es } ∷ ws)
head_free h [] ws = inl refl
head_free h (e ∷ es) ws = inr (_, runs false h e es [] ws (ready_free e))

-- With the mutex free, every write goes on that is not done.
free-Moves : (ws : List Writer) → All IsDone ws ⊎ Moves (false, ws)
free-Moves [] = inl tt
free-Moves (w ∷ ws) = elim (head_free w.hold w.rest ws) [
  | inr t ↦ inr t
  | inl d ↦ elim (free-Moves ws) [ inl a ↦ inl (d, a) | inr t ↦ inr (Moves-more false w ws t) ]
]

ready_locked :
    (h : Hold) (e : Event) (es : List Event)
    → h.locked ≡ true
    → follow true h (e ∷ es) ≡ some idle
    → ready true e ≡ true
unfolding follow ready
ready_locked h lock es l f = absurd (ground (arith, l, f))
ready_locked h _ es l f = refl

head_held :
    (h : Hold) (es : List Event) (ws : List Writer)
    → h.locked ≡ true
    → follow true h es ≡ some idle
    → Moves (true, record { hold = h; rest = es } ∷ ws)
head_held h [] ws l f = absurd (unfold follow in ground (arith, l, f))
head_held h (e ∷ es) ws l f = (_, runs true h e es [] ws (ready_locked h e es l f))

-- The write that has the mutex goes on.
held-Moves : (ws : List Writer) → All Keeps ws → total locked_by ws ≡ 1 → Moves (true, ws)
held-Moves [] k c = absurd (omega (arith, c))
held-Moves (w ∷ ws) (k, r) c = elim (Bool-cases w.hold.locked) [
  | inl l ↦ head_held w.hold w.rest ws l k.follows
  | inr u ↦ Moves-more true w ws (held-Moves ws r (ground (arith, u, c)))
]

Serial-Moves : (m : Bool) (ws : List Writer) → Serial (m, ws) → All IsDone ws ⊎ Moves (m, ws)
Serial-Moves true ws s = inr (held-Moves ws s.keeping s.counted)
Serial-Moves false ws s = free-Moves ws

-- However the goroutines of any number of writes with the mutex run, and whatever errors the
-- database, the callbacks and the commits give: at most one transaction is open at a time, no step
-- is made beyond the events of all the writes, and as long as some write has not returned, some
-- goroutine can go on.
pub writers_finish :
    (jobs : List (Attempts × TransactionConfig)) (n : ℕ) (m : Bool) (ws : List Writer)
    → Run (false, writers_of jobs) n (m, ws)
    → (total in_transaction ws ≤ 1)
      × (n ≤ total events_left (writers_of jobs))
      × (All IsDone ws ⊎ ((t : Bool × List Writer) × Step (m, ws) t))
writers_finish jobs n m ws r =
    let s = Run-Serial jobs n (m, ws) r in
    let b : one_if m ≤ 1 = ground arith in
    (
      omega (arith, covered-total ws s.keeping, s.counted),
      omega (arith, Run-events_left _ n (m, ws) r),
      Serial-Moves m ws s,
    )
