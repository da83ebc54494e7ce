-- ===== src/Jobs/Tests.antt =====
-- Runs of a dispatcher, and its theorems at concrete states.
use cartridge.Prelude.{◌≡◌, ◌≤◌, refl, true, false, some, [], ◌∷◌, length, nat_comparable}
use cartridge.Jobs.{
  Loop, batch, selecting, JobDispatcher, new_job_dispatcher, start, stop_begins, process_batch,
  Step, starts, stops, stop_returns, selects, ticks, exits, Reached, made, steps,
}
use cartridge.Jobs.Invariant.{ReachedSerially, starts_after, others}
use cartridge.Jobs.Serial.{Leads, serial-loops, serial-stops}

program : Unit {0}
unfolding new_job_dispatcher start stop_begins process_batch
program = tt

no_database : process_batch (some "unable to open database file") (1 ∷ 2 ∷ []) ≡ []
unfolding program
no_database = refl

abbrev stopped : JobDispatcher
stopped = record { running = false; stop = 1; closed = 1 ∷ []; loops = batch ∷ []; waiting = 1 }

stopped-ReachedSerially : ReachedSerially stopped
unfolding program
stopped-ReachedSerially =
    others _ _ (starts_after _ cartridge.Jobs.Invariant.made refl) (stops _) refl

-- A Start during the batch of the stopped loop: the old loop then reads the new channel, two loops
-- run, and the waiting Stop does not return.
abbrev restarted : JobDispatcher
restarted = record {
  running = true;
  stop = 2;
  closed = 1 ∷ [];
  loops = batch ∷ selecting 2 ∷ [];
  waiting = 1;
}

restarted-Reached : Reached restarted
unfolding program
restarted-Reached =
    let a = steps _ _ made (starts new_job_dispatcher) in
    let b = steps _ _ a (stops _) in
    let c = steps _ _ b (starts _) in steps _ _ c (selects _ (batch ∷ []) [] refl)

serial-loops_example :
    (length stopped.loops ≤ 1)
    × (stopped.running ≡ true → (stopped.waiting ≡ 0) × (length stopped.loops ≡ 1))
    × (stopped.running ≡ false → stopped.waiting ≡ 0 → length stopped.loops ≡ 0)
serial-loops_example = serial-loops stopped stopped-ReachedSerially

serial-stops_example : Leads stopped (record stopped { loops = [] })
serial-stops_example = serial-stops stopped stopped-ReachedSerially refl
