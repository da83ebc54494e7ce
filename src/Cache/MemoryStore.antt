-- ===== src/Cache/MemoryStore.antt =====
-- cache/memory_store.go: the in-memory store with FIFO eviction. The clock's reading and the order
-- in which `range` visits the map are arguments. Each method holds the lock from its start to its
-- end, so a method is one step; instants and durations are integers without int64 bounds.
pub mod Queue
pub mod Represents
pub mod Deletions
pub mod Refines
pub mod Reads
pub mod Removals
pub mod Cleaning
mod Tests
use mathlib.Core.List.{foldl}
use cartridge.Prelude.{
  ℕ, suc, String, Bool, true, false, not, ◌==◌, if◌then◌else◌, Option, none, some, List, [], ◌∷◌,
  ◌++◌, length, keep, string_comparable, has_prefix,
}
use cartridge.Prelude.Int.{ℤ, pos, ◌+ℤ◌, ltb_ℤ, leb_ℤ}
use cartridge.GoMap.{lookup, insert, delete}
use cartridge.Cache.Options.{Options, Stats, apply_options}

pub record Entry : Type 0 where
  pub value : List ℕ
  pub expires_at : ℤ
  pub created_at : ℤ

pub record MemoryStore : Type 0 where
  pub entries : List (String × Entry)
  pub order : List String
  pub opts : Options
  pub closed : Bool

unfoldable pub new_memory_store : List (Options → Options) → MemoryStore
unfolding apply_options
new_memory_store opts = record {
  entries = [];
  order = [];
  opts = apply_options opts;
  closed = false;
}

-- now.After(expiresAt) and now.Before(expiresAt)
abbrev pub is_after : ℤ → ℤ → Bool
is_after now t = ltb_ℤ t now

abbrev pub is_before : ℤ → ℤ → Bool
is_before now t = ltb_ℤ now t

abbrev pub unexpired : ℤ → Entry → Option (List ℕ)
unexpired now entry = if is_after now entry.expires_at then none else some entry.value

-- `none` stands for (nil, false).
unfoldable pub read : ℤ → String → MemoryStore → Option (List ℕ)
read now key s = elim (lookup key s.entries) [ none ↦ none | some entry ↦ unexpired now entry ]

unfoldable pub exist : ℤ → String → MemoryStore → Bool
exist now key s = elim (lookup key s.entries) [
  | none ↦ false
  | some entry ↦ is_before now entry.expires_at
]

-- The loop of enforceLimitLocked, over the order that is left.
unfoldable pub evict : ℤ → List (String × Entry) → List String → List (String × Entry) × List String
evict max entries [] = (entries, [])
evict max entries (oldest ∷ order) =
    let next = evict max (delete oldest entries) order in
    if ltb_ℤ max (pos (length entries)) then next else (entries, oldest ∷ order)

unfoldable pub enforce_limit_locked : MemoryStore → MemoryStore
unfolding evict
enforce_limit_locked s =
    let (entries, order) = evict s.opts.max_entries s.entries s.order in
    if leb_ℤ s.opts.max_entries (pos 0) then s else record s { entries = entries; order = order }

unfoldable pub write_with_ttl : ℤ → String → List ℕ → ℤ → MemoryStore → MemoryStore
unfolding enforce_limit_locked
write_with_ttl now key value ttl s = enforce_limit_locked (record s {
  entries =
      insert key (record { value = value; expires_at = now +ℤ ttl; created_at = now }) s.entries;
  order = elim (lookup key s.entries) [ none ↦ s.order ++ key ∷ [] | some _ ↦ s.order ];
})

unfoldable pub write : ℤ → String → List ℕ → MemoryStore → MemoryStore
unfolding write_with_ttl
write now key value s = write_with_ttl now key value s.opts.ttl s

unfoldable pub remove_from_order : String → List String → List String
remove_from_order key [] = []
remove_from_order key (k ∷ order) = if k == key then order else k ∷ remove_from_order key order

unfoldable pub delete_key : String → MemoryStore → MemoryStore
unfolding remove_from_order
delete_key key s = record s {
  entries = delete key s.entries;
  order = remove_from_order key s.order;
}

-- The loop of DeleteByPrefix, with its count.
unfoldable pub delete_visited : String → List String → MemoryStore → ℕ → MemoryStore × ℕ
unfolding delete_key
delete_visited prefix [] s count = (s, count)
delete_visited prefix (key ∷ visit) s count =
    let hit = delete_visited prefix visit (delete_key key s) (suc count) in
    let miss = delete_visited prefix visit s count in if has_prefix key prefix then hit else miss

unfoldable pub delete_by_prefix : List String → String → MemoryStore → MemoryStore × ℕ
unfolding delete_visited
delete_by_prefix visit prefix s = delete_visited prefix visit s 0

unfoldable pub clear : MemoryStore → MemoryStore
clear s = record s { entries = []; order = [] }

unfoldable pub stats : ℤ → MemoryStore → Stats
stats now s = record {
  entries = length s.entries;
  expired_entries = length (keep (λ p. is_after now p.1.expires_at) s.entries);
  max_entries = s.opts.max_entries;
  ttl = s.opts.ttl;
  backend = "memory";
}

-- Closing the stop channel a second time panics, which is `none`.
unfoldable pub close : MemoryStore → Option MemoryStore
close s = if s.closed then none else some (record s { closed = true })

abbrev pub is_expired : ℤ → Option Entry → Bool
is_expired now none = false
is_expired now (some entry) = is_after now entry.expires_at

-- The first loop of cleanup: expired keys in visiting order, up to the batch size.
unfoldable pub collect : ℤ → ℤ → List (String × Entry) → List String → List String → List String
collect now batch entries expired [] = expired
collect now batch entries expired (key ∷ visit) =
    let found = expired ++ key ∷ [] in
    let skipped = collect now batch entries expired visit in
    let more = collect now batch entries found visit in
    if is_expired now (lookup key entries)
    then (if leb_ℤ batch (pos (length found)) then found else more)
    else skipped

-- createdAt of the first before createdAt of the second; the keys come from the map.
abbrev pub created_before : Option Entry → Option Entry → Bool
created_before (some a) (some b) = is_before a.created_at b.created_at
created_before _ _ = false

unfoldable pub sort_insert : List (String × Entry) → String → List String → List String
sort_insert entries key [] = key ∷ []
sort_insert entries key (k ∷ sorted) =
    if created_before (lookup k entries) (lookup key entries)
    then k ∷ sort_insert entries key sorted
    else key ∷ k ∷ sorted

-- sort.Slice by creation time.
unfoldable pub sort_slice : List (String × Entry) → List String → List String
unfolding sort_insert
sort_slice entries [] = []
sort_slice entries (key ∷ expired) = sort_insert entries key (sort_slice entries expired)

unfoldable pub delete_keys : List String → MemoryStore → MemoryStore
unfolding delete_key
delete_keys expired s = foldl (λ t key. delete_key key t) s expired

unfoldable pub cleanup : ℤ → List String → MemoryStore → MemoryStore
unfolding collect sort_slice delete_keys
cleanup now visit s =
    let expired = collect now s.opts.cleanup_batch_size s.entries [] visit in
    delete_keys (sort_slice s.entries expired) s
