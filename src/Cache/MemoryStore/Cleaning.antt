-- ===== src/Cache/MemoryStore/Cleaning.antt =====
-- cache/memory_store.go: the background cleanup beside the other calls, in stores without a bound.
use cartridge.Prelude.{
  ℕ, ◌≡◌, refl, ap, sym, ◌∙◌, String, true, Option, none, some, List, [], ◌∷◌, All, arith, not,
  contains, has_prefix, string_comparable, Option-cases,
}
use cartridge.Prelude.Int.{ℤ, pos, ◌≤ℤ◌, leb_ℤ}
use cartridge.GoMap.{lookup, insert, delete}
use cartridge.GoMap.Laws.{lookup-insert, lookup-delete}
use cartridge.Cache.Options.{Options}
use cartridge.Cache.MemoryStore.{Entry, new_memory_store, read, unexpired}
use cartridge.Cache.MemoryStore.Queue.{Queue, push, without_prefix, without_keys, expired_batch}
use cartridge.Cache.MemoryStore.Refines.{
  Call, writes, writes_with_ttl, deletes, deletes_by_prefix, clears, cleans_up, run, AllPossible,
  step_queue, run_queue, new-Represents, run-Represents,
}
use cartridge.Cache.MemoryStore.Removals.{lookup-keep, batch-is_expired}

-- The calls without those of the cleanup, and without the orders that the runtime chose.
abbrev pub uncleaned : List Call → List Call
uncleaned [] = []
uncleaned (writes now key value ∷ cs) = writes now key value ∷ uncleaned cs
uncleaned (writes_with_ttl now key value ttl ∷ cs) =
    writes_with_ttl now key value ttl ∷ uncleaned cs
uncleaned (deletes key ∷ cs) = deletes key ∷ uncleaned cs
uncleaned (deletes_by_prefix visit prefix ∷ cs) = deletes_by_prefix [] prefix ∷ uncleaned cs
uncleaned (clears ∷ cs) = clears ∷ uncleaned cs
uncleaned (cleans_up now visit ∷ cs) = uncleaned cs

-- A cleanup ran at that time or before.
abbrev pub CleansBy : ℤ → Call → Type 0
CleansBy t (cleans_up now visit) = now ≤ℤ t
CleansBy t (writes _ _ _) = Unit
CleansBy t (writes_with_ttl _ _ _ _) = Unit
CleansBy t (deletes _) = Unit
CleansBy t (deletes_by_prefix _ _) = Unit
CleansBy t clears = Unit

-- What a reader gets at a time.
abbrev live_at : ℤ → Option Entry → Option (List ℕ)
live_at t none = none
live_at t (some e) = unexpired t e

module _ (t : ℤ) where
  abbrev SameReads : Queue → Queue → Type 0
  SameReads q p = (k : String) → live_at t (lookup k q) ≡ live_at t (lookup k p)

  insert-SameReads :
      (key : String) (e : Entry) (q p : Queue)
      → SameReads q p
      → SameReads (insert key e q) (insert key e p)
  insert-SameReads key e q p h k =
      ground (arith, lookup-insert key k e q, lookup-insert key k e p, h k)

  push-SameReads :
      (max : ℤ) (key : String) (e : Entry) (q p : Queue)
      → max ≤ℤ pos 0
      → SameReads q p
      → SameReads (push max key e q) (push max key e p)
  unfolding push
  push-SameReads max key e q p m h =
      let u : leb_ℤ max (pos 0) ≡ true = ground (arith, m) in rw u (insert-SameReads key e q p h)

  delete-SameReads :
      (key : String) (q p : Queue) → SameReads q p → SameReads (delete key q) (delete key p)
  delete-SameReads key q p h k = ground (arith, lookup-delete key k q, lookup-delete key k p, h k)

  prefix-SameReads :
      (prefix : String) (q p : Queue)
      → SameReads q p
      → SameReads (without_prefix prefix q) (without_prefix prefix p)
  prefix-SameReads prefix q p h k = ground (
    arith,
    lookup-keep (λ j. not (has_prefix j prefix)) k q,
    lookup-keep (λ j. not (has_prefix j prefix)) k p,
    h k,
  )

  -- What a cleanup takes has expired.
  cleanup-SameReads :
      (now batch : ℤ) (visit : List String) (q p : Queue)
      → now ≤ℤ t
      → SameReads q p
      → SameReads (without_keys (expired_batch now batch visit q) q) p
  cleanup-SameReads now batch visit q p b h k = ground (
    arith,
    lookup-keep (λ j. not (contains (expired_batch now batch visit q) j)) k q,
    batch-is_expired now batch visit q k,
    Option-cases (lookup k q),
    b,
    h k,
  )

  module _ (o : Options) (no_bound : o.max_entries ≤ℤ pos 0) where
    run_queue-SameReads :
        (cs : List Call) (q p : Queue)
        → All (CleansBy t) cs
        → SameReads q p
        → SameReads (run_queue o cs q) (run_queue o (uncleaned cs) p)
    unfolding run_queue step_queue
    run_queue-SameReads [] q p b h = h
    run_queue-SameReads (writes now key value ∷ cs) q p b h =
        run_queue-SameReads cs _ _ b.1 (push-SameReads o.max_entries key _ q p no_bound h)
    run_queue-SameReads (writes_with_ttl now key value ttl ∷ cs) q p b h =
        run_queue-SameReads cs _ _ b.1 (push-SameReads o.max_entries key _ q p no_bound h)
    run_queue-SameReads (deletes key ∷ cs) q p b h =
        run_queue-SameReads cs _ _ b.1 (delete-SameReads key q p h)
    run_queue-SameReads (deletes_by_prefix visit prefix ∷ cs) q p b h =
        run_queue-SameReads cs _ _ b.1 (prefix-SameReads prefix q p h)
    run_queue-SameReads (clears ∷ cs) q p b h = run_queue-SameReads cs [] [] b.1 (λ k. refl)
    run_queue-SameReads (cleans_up now visit ∷ cs) q p b h =
        run_queue-SameReads cs _ p b.1 (cleanup-SameReads now o.cleanup_batch_size visit q p b.0 h)

read-run :
    (t : ℤ) (key : String) (opts : List (Options → Options)) (cs : List Call)
    → AllPossible cs (new_memory_store opts)
    → read t key (run cs (new_memory_store opts))
      ≡ live_at t (lookup key (run_queue (new_memory_store opts).opts cs []))
unfolding read
read-run t key opts cs p =
    ap (live_at t) ((run-Represents cs (new-Represents opts) p).agree.found key)

-- Two stores without a bound, after histories that differ only in the cleanups, however many ran and
-- whichever entries they took, and in the orders in which the maps were visited, give a reader the
-- same at every time that no cleanup is later than.
pub cleanups_invisible :
    (t : ℤ) (key : String) (opts : List (Options → Options)) (cs ds : List Call)
    → (new_memory_store opts).opts.max_entries ≤ℤ pos 0
    → AllPossible cs (new_memory_store opts)
    → AllPossible ds (new_memory_store opts)
    → All (CleansBy t) cs
    → All (CleansBy t) ds
    → uncleaned cs ≡ uncleaned ds
    → read t key (run cs (new_memory_store opts)) ≡ read t key (run ds (new_memory_store opts))
cleanups_invisible t key opts cs ds n p q b c e =
    let o = (new_memory_store opts).opts in
    read-run t key opts cs p
    ∙ run_queue-SameReads t o n cs [] [] b (λ k. refl) key
    ∙ ap (λ x. live_at t (lookup key (run_queue o x []))) e
    ∙ sym (run_queue-SameReads t o n ds [] [] c (λ k. refl) key)
    ∙ sym (read-run t key opts ds q)
