-- ===== src/Sqlite/Transaction/Writers.antt =====
-- Many writes with the mutex at once, in any order of their events: each goroutine runs the events
-- of its own write, and waits at a lock while another one holds the mutex.
pub mod Finish
pub mod Panic
mod Tests
use cartridge.Prelude.{
  ℕ, zero, suc, ◌+◌, ◌≡◌, ◌≤◌, ◌<◌, ◌⊎◌, inl, inr, refl, ap, sym, ◌∙◌, Bool, true, false, not, ◌&&◌,
  ◌||◌, Option, none, some, List, [], ◌∷◌, ◌++◌, map, length, All, if◌then◌else◌, arith,
}
use cartridge.Sqlite.Transaction.{
  Attempts, TransactionConfig, Event, lock, unlock, begin_fails, begin_opens, body, commits,
  commit_fails, rollback, sleep, perform_write_with_mutex,
}
use cartridge.Sqlite.Transaction.Protocol.{Hold, idle, allow, follow, perform_write-follow}

-- What a write holds, and the events that it has still to run.
pub record Writer : Type 0 where
  pub hold : Hold
  pub rest : List Event

-- What an event makes of what its write holds.
unfoldable pub hold_after : Hold → Event → Hold
hold_after h lock = record h { locked = true }
hold_after h unlock = record h { locked = false }
hold_after h begin_fails = h
hold_after h begin_opens = record h { in_tx = true }
hold_after h body = h
hold_after h commits = record h { in_tx = false }
hold_after h commit_fails = h
hold_after h rollback = record h { in_tx = false }
hold_after h (sleep d) = h

-- The mutex, and what an event waits for and makes of it.
unfoldable pub ready : Bool → Event → Bool
ready m lock = not m
ready m _ = true

unfoldable pub mutex_after : Bool → Event → Bool
mutex_after m lock = true
mutex_after m unlock = false
mutex_after m _ = m

-- One goroutine runs its next event, while the others stand still.
pub data Step : Bool × List Writer → Bool × List Writer → Type 0 where
  runs :
      (m : Bool) (h : Hold) (e : Event) (es : List Event) (ps qs : List Writer)
      → ready m e ≡ true
      → Step
          (m, ps ++ record { hold = h; rest = e ∷ es } ∷ qs)
          (mutex_after m e, ps ++ record { hold = hold_after h e; rest = es } ∷ qs)

-- So many steps from a state.
pub data Run (s : Bool × List Writer) : ℕ → Bool × List Writer → Type 0 where
  starts : Run s zero s
  steps : (n : ℕ) (x y : Bool × List Writer) → Run s n x → Step x y → Run s (suc n) y

-- The writes at their start.
abbrev pub writers_of : List (Attempts × TransactionConfig) → List Writer
writers_of =
    map (λ (env, cfg). record { hold = idle; rest = (perform_write_with_mutex env cfg).events })

abbrev one_if : Bool → ℕ
one_if true = 1
one_if false = 0

abbrev pub total : (Writer → ℕ) → List Writer → ℕ
total f [] = 0
total f (w ∷ ws) = f w + total f ws

abbrev pub locked_by : Writer → ℕ
locked_by w = one_if w.hold.locked

abbrev pub in_transaction : Writer → ℕ
in_transaction w = one_if w.hold.in_tx

-- Its events keep the rules of the protocol to their end, where it holds nothing.
pub record Keeps (w : Writer) : Type 0 where
  pub follows : follow true w.hold w.rest ≡ some idle
  pub covered : in_transaction w ≤ locked_by w

follow-step :
    (h : Hold) (e : Event) (es : List Event)
    → in_transaction (record { hold = h; rest = e ∷ es })
      ≤ locked_by (record { hold = h; rest = e ∷ es })
    → follow true h (e ∷ es) ≡ some idle
    → Keeps (record { hold = hold_after h e; rest = es })
unfolding follow hold_after
follow-step h lock es c f = record { follows = ground arith; covered = ground arith }
follow-step h unlock es c f = record { follows = ground arith; covered = ground arith }
follow-step h begin_fails es c f = record { follows = ground arith; covered = ground arith }
follow-step h begin_opens es c f = record { follows = ground arith; covered = ground arith }
follow-step h body es c f = record { follows = ground arith; covered = ground arith }
follow-step h commits es c f = record { follows = ground arith; covered = ground arith }
follow-step h commit_fails es c f = record { follows = ground arith; covered = ground arith }
follow-step h rollback es c f = record { follows = ground arith; covered = ground arith }
follow-step h (sleep d) es c f = record { follows = ground arith; covered = ground arith }

total-append :
    (f : Writer → ℕ) (ps : List Writer) (w : Writer) (qs : List Writer)
    → total f (ps ++ w ∷ qs) ≡ f w + total f (ps ++ qs)
total-append f [] w qs = refl
total-append f (p ∷ ps) w qs = omega (arith, total-append f ps w qs)

All-change :
    (P : Writer → Type 0) (ps : List Writer) (v w : Writer) (qs : List Writer)
    → (P v → P w)
    → All P (ps ++ v ∷ qs)
    → All P (ps ++ w ∷ qs)
All-change P [] v w qs h (p, r) = (h p, r)
All-change P (x ∷ ps) v w qs h (p, r) = (p, All-change P ps v w qs h r)

All-middle :
    (P : Writer → Type 0) (ps : List Writer) (v : Writer) (qs : List Writer)
    → All P (ps ++ v ∷ qs)
    → P v
All-middle P [] v qs (p, r) = p
All-middle P (x ∷ ps) v qs (p, r) = All-middle P ps v qs r

Keeps-step :
    (h : Hold) (e : Event) (es : List Event)
    → Keeps (record { hold = h; rest = e ∷ es })
    → Keeps (record { hold = hold_after h e; rest = es })
Keeps-step h e es k = follow-step h e es k.covered k.follows

-- The mutex is held exactly by the write that has locked it.
record Serial (s : Bool × List Writer) : Type 0 where
  counted : total locked_by s.1 ≡ one_if s.0
  keeping : All Keeps s.1

locked-step :
    (m : Bool) (h : Hold) (e : Event) (es : List Event)
    → ready m e ≡ true
    → follow true h (e ∷ es) ≡ some idle
    → one_if h.locked ≤ one_if m
    → one_if (hold_after h e).locked + one_if m ≡ one_if h.locked + one_if (mutex_after m e)
unfolding follow hold_after ready mutex_after
locked-step m h lock es r f c = ground arith
locked-step m h unlock es r f c = ground arith
locked-step m h begin_fails es r f c = refl
locked-step m h begin_opens es r f c = refl
locked-step m h body es r f c = refl
locked-step m h commits es r f c = refl
locked-step m h commit_fails es r f c = refl
locked-step m h rollback es r f c = refl
locked-step m h (sleep d) es r f c = refl

Step-Serial : (s t : Bool × List Writer) → Step s t → Serial s → Serial t
Step-Serial _ _ (runs m h e es ps qs r) k =
    let v : Writer = record { hold = h; rest = e ∷ es } in
    let w : Writer = record { hold = hold_after h e; rest = es } in
    let old = total-append locked_by ps v qs in
    let new = total-append locked_by ps w qs in
    let kept = All-middle Keeps ps v qs k.keeping in
    let moved = locked-step m h e es r kept.follows (omega (arith, old, k.counted)) in
    record {
      counted = omega (arith, old, new, moved, k.counted);
      keeping = All-change Keeps ps v w qs (Keeps-step h e es) k.keeping;
    }
