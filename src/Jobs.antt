-- ===== src/Jobs.antt =====
-- jobs.go: the dispatcher that runs processors in a loop of its own, and steps of it and of its
-- callers in any order. Each critical section of the mutex is one step.
pub mod Channels
pub mod Invariant
pub mod Serial
mod Tests
use cartridge.Prelude.{
  ℕ, suc, zero, ◌≡◌, String, Bool, true, false, Option, none, some, List, [], ◌∷◌, ◌++◌,
  if◌then◌else◌, contains, nat_comparable,
}

-- A loop runs a batch, or waits in its select for the ticker and for a stop channel, the one that
-- the field held when the select began.
pub data Loop : Type 0 where
  batch : Loop
  selecting : ℕ → Loop

-- Channels are numbered in the order of their making. `loops` is what the wait group counts;
-- `waiting` counts the calls of Stop that are in wg.Wait.
pub record JobDispatcher : Type 0 where
  pub running : Bool
  pub stop : ℕ
  pub closed : List ℕ
  pub loops : List Loop
  pub waiting : ℕ

unfoldable pub new_job_dispatcher : JobDispatcher
new_job_dispatcher = record { running = false; stop = 0; closed = []; loops = []; waiting = 0 }

unfoldable pub start : JobDispatcher → JobDispatcher
start d =
    if d.running then d else record d { running = true; stop = suc d.stop; loops = batch ∷ d.loops }

-- Stop up to wg.Wait.
unfoldable pub stop_begins : JobDispatcher → JobDispatcher
stop_begins d =
    if d.running
    then record d { running = false; closed = d.stop ∷ d.closed; waiting = suc d.waiting }
    else d

-- The batches of one call of processBatch: an error of Connect runs none, and an error of a
-- processor is only logged.
unfoldable pub process_batch : Option String → List ℕ → List ℕ
process_batch (some e) processors = []
process_batch none processors = processors

-- A step of a caller or of a loop.
pub data Step : JobDispatcher → JobDispatcher → Type 0 where
  starts : (d : JobDispatcher) → Step d (start d)
  stops : (d : JobDispatcher) → Step d (stop_begins d)
  stop_returns :
      (d : JobDispatcher) (n : ℕ)
      → d.waiting ≡ suc n
      → d.loops ≡ []
      → Step d (record d { waiting = n })
  selects :
      (d : JobDispatcher) (ps qs : List Loop)
      → d.loops ≡ ps ++ batch ∷ qs
      → Step d (record d { loops = ps ++ selecting d.stop ∷ qs })
  ticks :
      (d : JobDispatcher) (c : ℕ) (ps qs : List Loop)
      → d.loops ≡ ps ++ selecting c ∷ qs
      → Step d (record d { loops = ps ++ batch ∷ qs })
  exits :
      (d : JobDispatcher) (c : ℕ) (ps qs : List Loop)
      → d.loops ≡ ps ++ selecting c ∷ qs
      → contains d.closed c ≡ true
      → Step d (record d { loops = ps ++ qs })

-- What a new dispatcher reaches.
pub data Reached : JobDispatcher → Type 0 where
  made : Reached new_job_dispatcher
  steps : (d e : JobDispatcher) → Reached d → Step d e → Reached e
