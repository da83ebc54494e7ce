-- ===== src/Cache/MemoryStore/Tests.antt =====
-- Runs of the memory store, and its theorems at concrete inputs.
use cartridge.Prelude.{
  ◌≡◌, refl, String, false, none, some, List, [], ◌∷◌, ◌++◌, length, contains, Distinct, arith,
  string_comparable, has_prefix,
}
use cartridge.Prelude.Int.{pos, ◌+ℤ◌, ◌≤ℤ◌, ◌<ℤ◌}
use cartridge.GoMap.{lookup, insert, delete, keys, Visits}
use cartridge.Cache.Options.{Options, with_max_entries, with_ttl}
use cartridge.Cache.MemoryStore.{
  MemoryStore, new_memory_store, read, exist, write, delete_by_prefix, cleanup,
}
use cartridge.Cache.MemoryStore.Queue.{Queue, push}
use cartridge.Cache.MemoryStore.Represents.{Represents}
use cartridge.Cache.MemoryStore.Refines.{
  Call, writes, writes_with_ttl, deletes_by_prefix, cleans_up, step, run, run_queue, step_queue,
  new-Represents, run-Represents, run-bounded, AllPossible,
}
use cartridge.Cache.MemoryStore.Reads
use cartridge.Cache.MemoryStore.Cleaning.{cleanups_invisible}

program : Unit {0}
unfolding new_memory_store write step run run_queue step_queue push insert lookup delete has_prefix
    read exist delete_by_prefix cleanup with_max_entries with_ttl ◌+ℤ◌
program = tt

abbrev options : List (Options → Options)
options = with_max_entries (pos 2) ∷ with_ttl (pos 100) ∷ []

abbrev fill : List Call
fill = writes (pos 0) "a:1" (1 ∷ []) ∷ writes_with_ttl (pos 10) "b" (2 ∷ []) (pos 5) ∷ []

abbrev full : MemoryStore
full = run fill (new_memory_store options)

abbrev queue : Queue
queue = run_queue (new_memory_store options).opts fill []

full-evicts_first : (write (pos 20) "c" (3 ∷ []) full).order ≡ "b" ∷ "c" ∷ []
unfolding program
full-evicts_first = refl

full-reads :
    (read (pos 100) "a:1" full ≡ some (1 ∷ []))
    × (exist (pos 100) "a:1" full ≡ false)
    × (read (pos 101) "a:1" full ≡ none)
    × (read (pos 15) "b" full ≡ some (2 ∷ []))
unfolding program
full-reads = (refl, refl, refl, refl)

full-cleanup : (cleanup (pos 50) ("b" ∷ "a:1" ∷ []) full).order ≡ "a:1" ∷ []
unfolding program
full-cleanup = refl

full-Visits : Visits ("b" ∷ "a:1" ∷ []) full.entries
unfolding program
full-Visits = record { distinct = (refl, (refl, tt)); same = λ k. ground arith }

full-Represents : Represents full queue
full-Represents = run-Represents fill (new-Represents options) (tt, (tt, tt))

full-IsValid : Reads.IsValid full queue
unfolding program
full-IsValid = record { represents = full-Represents; fits = λ _. omega arith }

abbrev program_calls : List Call
program_calls = fill ++ deletes_by_prefix ("b" ∷ "a:1" ∷ []) "a:" ∷ []

program_calls-AllPossible : AllPossible program_calls (new_memory_store options)
unfolding run
program_calls-AllPossible = (tt, (tt, (full-Visits, tt)))

run-Represents_example :
    Represents
      (run program_calls (new_memory_store options))
      (run_queue (new_memory_store options).opts program_calls [])
run-Represents_example =
    run-Represents program_calls (new-Represents options) program_calls-AllPossible

run-bounded_example :
    let s = run program_calls (new_memory_store options) in
    Distinct s.order
    × ((k : String) → contains s.order k ≡ contains (keys s.entries) k)
    × (length s.order ≡ length s.entries)
    × (pos 0 <ℤ (new_memory_store options).opts.max_entries
        → pos (length s.entries) ≤ℤ (new_memory_store options).opts.max_entries)
run-bounded_example = run-bounded options program_calls program_calls-AllPossible

abbrev no_bound : List (Options → Options)
no_bound = with_max_entries (pos 0) ∷ with_ttl (pos 100) ∷ []

abbrev cleaned : List Call
cleaned = fill ++ cleans_up (pos 50) ("b" ∷ "a:1" ∷ []) ∷ []

cleaned-AllPossible : AllPossible cleaned (new_memory_store no_bound)
unfolding program
cleaned-AllPossible =
    (tt, (tt, (record { distinct = (refl, (refl, tt)); same = λ k. ground arith }, tt)))

is_unbounded : (new_memory_store no_bound).opts.max_entries ≤ℤ pos 0
unfolding program
is_unbounded = omega arith

cleanups_invisible_example :
    read (pos 60) "b" (run cleaned (new_memory_store no_bound))
    ≡ read (pos 60) "b" (run fill (new_memory_store no_bound))
cleanups_invisible_example =
    cleanups_invisible (pos 60) "b" no_bound cleaned fill is_unbounded cleaned-AllPossible
      (tt, (tt, tt)) (tt, (tt, (omega arith, tt))) (tt, (tt, tt)) refl
