-- ===== src/Cache/MemoryStore/Refines.antt =====
-- Sequences of calls on a memory store, and of their counterparts on the queue.
use cartridge.Prelude.{
  ℕ, ◌≡◌, refl, String, List, [], ◌∷◌, length, contains, Distinct, arith, string_comparable,
  length-drop, length-keep-le, length-map, not, has_prefix, sym, subst, suc,
}
use cartridge.Prelude.Int.{ℤ, pos, negsuc, ◌+ℤ◌, ◌≤ℤ◌, ◌<ℤ◌}
use cartridge.GoMap.{delete, insert, keys, Visits}
use cartridge.GoMap.Laws.{length-delete-le}
use cartridge.Cache.Options.{Options}
use cartridge.Cache.MemoryStore.{
  Entry, MemoryStore, new_memory_store, enforce_limit_locked, write_with_ttl, write, delete_key,
  delete_visited, delete_by_prefix, clear, collect, sort_slice, delete_keys, cleanup,
}
use cartridge.Cache.MemoryStore.Queue.{
  Queue, excess, push, without_prefix, without_keys, expired_batch,
}
use cartridge.Cache.MemoryStore.Represents.{Represents, contains-Matches, write_with_ttl-Represents}
use cartridge.Cache.MemoryStore.Deletions.{
  delete_key-Represents, delete_by_prefix-Represents, cleanup-Represents,
}

-- The calls that change a store, with the clock's reading and the visiting order of `range`.
pub data Call : Type 0 where
  writes : ℤ → String → List ℕ → Call
  writes_with_ttl : ℤ → String → List ℕ → ℤ → Call
  deletes : String → Call
  deletes_by_prefix : List String → String → Call
  clears : Call
  cleans_up : ℤ → List String → Call

unfoldable pub step : Call → MemoryStore → MemoryStore
step (writes now key value) s = write now key value s
step (writes_with_ttl now key value ttl) s = write_with_ttl now key value ttl s
step (deletes key) s = delete_key key s
step (deletes_by_prefix visit prefix) s = (delete_by_prefix visit prefix s).0
step clears s = clear s
step (cleans_up now visit) s = cleanup now visit s

unfoldable pub run : List Call → MemoryStore → MemoryStore
run [] s = s
run (c ∷ cs) s = run cs (step c s)

-- The visiting orders are orders of the map at that call.
abbrev pub Possible : Call → MemoryStore → Type 0
Possible (deletes_by_prefix visit prefix) s = Visits visit s.entries
Possible (cleans_up now visit) s = Visits visit s.entries
Possible (writes _ _ _) s = Unit
Possible (writes_with_ttl _ _ _ _) s = Unit
Possible (deletes _) s = Unit
Possible clears s = Unit

abbrev pub AllPossible : List Call → MemoryStore → Type 0
AllPossible [] s = Unit
AllPossible (c ∷ cs) s = Possible c s × AllPossible cs (step c s)

unfoldable pub step_queue : Options → Call → Queue → Queue
step_queue o (writes now key value) q =
    push o.max_entries key (record { value = value; expires_at = now +ℤ o.ttl; created_at = now }) q
step_queue o (writes_with_ttl now key value ttl) q =
    push o.max_entries key (record { value = value; expires_at = now +ℤ ttl; created_at = now }) q
step_queue o (deletes key) q = delete key q
step_queue o (deletes_by_prefix visit prefix) q = without_prefix prefix q
step_queue o clears q = []
step_queue o (cleans_up now visit) q =
    without_keys (expired_batch now o.cleanup_batch_size visit q) q

unfoldable pub run_queue : Options → List Call → Queue → Queue
run_queue o [] q = q
run_queue o (c ∷ cs) q = run_queue o cs (step_queue o c q)

step-Represents :
    (c : Call) {s : MemoryStore} {q : Queue}
    → Represents s q
    → Possible c s
    → Represents (step c s) (step_queue s.opts c q)
unfolding step step_queue write clear
step-Represents (writes now key value) {s} r p =
    write_with_ttl-Represents now key value s.opts.ttl r
step-Represents (writes_with_ttl now key value ttl) r p =
    write_with_ttl-Represents now key value ttl r
step-Represents (deletes key) r p = delete_key-Represents key r
step-Represents (deletes_by_prefix visit prefix) r p = delete_by_prefix-Represents visit prefix r p
step-Represents clears r p = record {
  agree = record { distinct_keys = tt; distinct = tt; found = λ k. refl; size = refl };
  order = refl;
}
step-Represents (cleans_up now visit) r p = cleanup-Represents now visit r

delete_visited-opts :
    (prefix : String) (visit : List String) (s : MemoryStore) (n : ℕ)
    → (delete_visited prefix visit s n).0.opts ≡ s.opts
unfolding delete_visited delete_key
delete_visited-opts prefix [] s n = refl
delete_visited-opts prefix (k ∷ visit) s n = ground (
  arith,
  delete_visited-opts prefix visit (delete_key k s) (suc n),
  delete_visited-opts prefix visit s n,
)

delete_keys-opts : (ks : List String) (s : MemoryStore) → (delete_keys ks s).opts ≡ s.opts
unfolding delete_keys delete_key
delete_keys-opts [] s = refl
delete_keys-opts (k ∷ ks) s = delete_keys-opts ks (delete_key k s)

pub step-opts : (c : Call) (s : MemoryStore) → (step c s).opts ≡ s.opts
unfolding step write write_with_ttl enforce_limit_locked delete_key clear delete_by_prefix cleanup
step-opts (writes now key value) s = ground arith
step-opts (writes_with_ttl now key value ttl) s = ground arith
step-opts (deletes key) s = refl
step-opts (deletes_by_prefix visit prefix) s = delete_visited-opts prefix visit s 0
step-opts clears s = refl
step-opts (cleans_up now visit) s =
    delete_keys-opts
      (sort_slice s.entries (collect now s.opts.cleanup_batch_size s.entries [] visit)) s

pub new-Represents : (opts : List (Options → Options)) → Represents (new_memory_store opts) []
unfolding new_memory_store
new-Represents opts = record {
  agree = record { distinct_keys = tt; distinct = tt; found = λ k. refl; size = refl };
  order = refl;
}

-- Whatever the calls, the visiting orders of the map and the clock's readings, a memory store goes
-- on holding exactly what the bounded queue holds after the same calls, in the queue's order.
pub run-Represents :
    (cs : List Call) {s : MemoryStore} {q : Queue}
    → Represents s q
    → AllPossible cs s
    → Represents (run cs s) (run_queue s.opts cs q)
unfolding run run_queue
run-Represents [] r p = r
run-Represents (c ∷ cs) {s} {q} r p =
    subst (λ o. Represents (run cs (step c s)) (run_queue o cs (step_queue s.opts c q)))
      (step-opts c s) (run-Represents cs (step-Represents c r p.0) p.1)

length-push :
    (max : ℤ) (key : String) (entry : Entry) (q : Queue)
    → pos 0 <ℤ max
    → pos (length (push max key entry q)) ≤ℤ max
unfolding push
length-push (pos n) key entry q h =
    ground (arith, length-drop (excess (pos n) (length (insert key entry q))) (insert key entry q))
length-push (negsuc n) key entry q h = absurd (omega arith)

abbrev Fits : Options → Queue → Type 0
Fits o q = pos (length q) ≤ℤ o.max_entries

step_queue-Fits :
    (o : Options) (c : Call) (q : Queue)
    → pos 0 <ℤ o.max_entries
    → Fits o q
    → Fits o (step_queue o c q)
unfolding step_queue
step_queue-Fits o (writes now key value) q h f = length-push o.max_entries key _ q h
step_queue-Fits o (writes_with_ttl now key value ttl) q h f = length-push o.max_entries key _ q h
step_queue-Fits o (deletes key) q h f = omega (arith, length-delete-le key q)
step_queue-Fits o (deletes_by_prefix visit prefix) q h f =
    omega (arith, length-keep-le (λ p. not (has_prefix p.0 prefix)) q)
step_queue-Fits o clears q h f = omega arith
step_queue-Fits o (cleans_up now visit) q h f = omega (
  arith,
  length-keep-le (λ p. not (contains (expired_batch now o.cleanup_batch_size visit q) p.0)) q,
)

run_queue-Fits :
    (o : Options) (cs : List Call) (q : Queue)
    → pos 0 <ℤ o.max_entries
    → Fits o q
    → Fits o (run_queue o cs q)
unfolding run_queue
run_queue-Fits o [] q h f = f
run_queue-Fits o (c ∷ cs) q h f =
    run_queue-Fits o cs (step_queue o c q) h (step_queue-Fits o c q h f)

-- A new store with a positive bound never holds more entries than the bound, and its order list
-- names exactly the keys of its map, each once.
pub run-bounded :
    (opts : List (Options → Options)) (cs : List Call)
    → AllPossible cs (new_memory_store opts)
    → let s = run cs (new_memory_store opts) in
      Distinct s.order
      × ((k : String) → contains s.order k ≡ contains (keys s.entries) k)
      × (length s.order ≡ length s.entries)
      × (pos 0 <ℤ (new_memory_store opts).opts.max_entries
          → pos (length s.entries) ≤ℤ (new_memory_store opts).opts.max_entries)
run-bounded opts cs p =
    let s0 = new_memory_store opts in
    let r : Represents (run cs s0) (run_queue s0.opts cs []) =
      run-Represents cs (new-Represents opts) p in
    (
      rw r.order r.agree.distinct,
      λ k. rw r.order (sym (contains-Matches r.agree k)),
      rw r.order (rw length-map (sym r.agree.size)),
      λ h. rw r.agree.size (run_queue-Fits s0.opts cs [] h (omega arith)),
    )
