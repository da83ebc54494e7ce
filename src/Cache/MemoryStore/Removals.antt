-- ===== src/Cache/MemoryStore/Removals.antt =====
-- cache/memory_store.go: what DeleteByPrefix and the cleanup change for a reader.
use cartridge.Prelude.{
  ℕ, zero, suc, ◌+◌, ◌≡◌, String, Bool, true, not, if◌then◌else◌, none, List, [], ◌∷◌, length, take,
  keep, contains, arith, string_comparable, has_prefix, max,
}
use cartridge.Prelude.Int.{ℤ, ◌≤ℤ◌, pos_part}
use cartridge.GoMap.{lookup, Visits}
use cartridge.Cache.MemoryStore.{MemoryStore, read, is_expired, delete_by_prefix, cleanup}
use cartridge.Cache.MemoryStore.Queue.{Queue, is_expired_in, expired_batch}
use cartridge.Cache.MemoryStore.Represents.{Represents}
use cartridge.Cache.MemoryStore.Deletions.{
  delete_by_prefix-Represents, delete_by_prefix-count, cleanup-Represents,
}

pub lookup-keep :
    (f : String → Bool) (k : String) (q : Queue)
    → lookup k (keep (λ p. f p.0) q) ≡ (if f k then lookup k q else none)
unfolding lookup
lookup-keep f k [] = ground arith
lookup-keep f k ((j, v) ∷ q) = ground (arith, string_comparable.equal_iff j k, lookup-keep f k q)

contains-take :
    (n : ℕ) (ks : List String) (k : String) → contains (take n ks) k ≡ true → contains ks k ≡ true
contains-take zero ks k h = cc
contains-take (suc n) [] k h = cc
contains-take (suc n) (j ∷ ks) k h = ground (arith, contains-take n ks k)

contains-keep :
    (f : String → Bool) (ks : List String) (k : String) → contains (keep f ks) k ≡ true → f k ≡ true
contains-keep f [] k h = cc
contains-keep f (j ∷ ks) k h = ground (arith, string_comparable.equal_iff j k, contains-keep f ks k)

pub batch-is_expired :
    (now batch : ℤ) (visit : List String) (q : Queue) (k : String)
    → contains (expired_batch now batch visit q) k ≡ true
    → is_expired now (lookup k q) ≡ true
unfolding expired_batch
batch-is_expired now batch visit q k h =
    contains-keep (is_expired_in now q) visit k
      (contains-take (max 1 (pos_part batch)) (keep (is_expired_in now q) visit) k h)

-- Deleting by prefix makes every key with the prefix read as absent, leaves every other key as it
-- was, and returns how many entries it removed, whatever the order in which `range` visits the map.
pub read-delete_by_prefix :
    (t : ℤ) (visit : List String) (prefix key : String) {s : MemoryStore} {q : Queue}
    → Represents s q
    → Visits visit s.entries
    → let (s', count) = delete_by_prefix visit prefix s in
      (read t key s' ≡ (if has_prefix key prefix then none else read t key s))
      × (length s'.entries + count ≡ length s.entries)
unfolding read
read-delete_by_prefix t visit prefix key {s} {q} r v =
    let r' = delete_by_prefix-Represents visit prefix r v in
    (
      ground (
        arith,
        r'.agree.found key,
        r.agree.found key,
        lookup-keep (λ k. not (has_prefix k prefix)) key q,
      ),
      delete_by_prefix-count visit prefix s r.agree.distinct_keys v,
    )

-- A cleanup is invisible: at its instant or later, every key reads as it would have without it.
pub read-cleanup :
    (now t : ℤ) (visit : List String) (key : String) {s : MemoryStore} {q : Queue}
    → Represents s q
    → now ≤ℤ t
    → read t key (cleanup now visit s) ≡ read t key s
unfolding read
read-cleanup now t visit key {s} {q} r later =
    let batch = expired_batch now s.opts.cleanup_batch_size visit q in
    let r' = cleanup-Represents now visit r in
    let expired = batch-is_expired now s.opts.cleanup_batch_size visit q key in
    ground (
      arith,
      r'.agree.found key,
      r.agree.found key,
      lookup-keep (λ k. not (contains batch k)) key q,
      expired,
      later,
    )
