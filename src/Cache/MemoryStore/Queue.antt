-- ===== src/Cache/MemoryStore/Queue.antt =====
-- What a memory store promises: a bounded first-in first-out queue of keyed entries. A write to a
-- present key keeps its place, a new key goes to the end, and what exceeds the bound leaves in front.
use cartridge.Prelude.{
  ℕ, ◌-◌, String, Bool, not, if◌then◌else◌, List, length, drop, take, keep, string_comparable,
  contains, has_prefix, max,
}
use cartridge.Prelude.Int.{ℤ, pos, pos_part, leb_ℤ}
use cartridge.GoMap.{insert, lookup}
use cartridge.Cache.MemoryStore.{Entry, is_expired}

abbrev pub Queue : Type 0
Queue = List (String × Entry)

-- How many entries exceed the bound; a bound of 0 or less is none.
abbrev pub excess : ℤ → ℕ → ℕ
excess max n = if leb_ℤ max (pos 0) then 0 else n - pos_part max

unfoldable pub push : ℤ → String → Entry → Queue → Queue
push max key entry q = let q' = insert key entry q in drop (excess max (length q')) q'

abbrev pub without_prefix : String → Queue → Queue
without_prefix prefix q = keep (λ p. not (has_prefix p.0 prefix)) q

abbrev pub without_keys : List String → Queue → Queue
without_keys expired q = keep (λ p. not (contains expired p.0)) q

abbrev pub is_expired_in : ℤ → Queue → String → Bool
is_expired_in now q key = is_expired now (lookup key q)

-- The keys that one cleanup takes: the first expired ones that `range` visits, at least one even
-- where the batch size is 0 or less.
unfoldable pub expired_batch : ℤ → ℤ → List String → Queue → List String
expired_batch now batch visit q = take (max 1 (pos_part batch)) (keep (is_expired_in now q) visit)
