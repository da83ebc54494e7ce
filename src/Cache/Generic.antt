-- ===== src/Cache/Generic.antt =====
-- cache/cache.go: the generic in-memory cache that refreshes a value when it is too old. The clock's
-- readings, what the fetch function returns at a call, and the visiting order of `range` are
-- arguments. Logging is left out. Each locked section is one step: `fast_path` under the read lock,
-- `refresh` under the write lock; between the two other goroutines may run.
pub mod Gets
pub mod Invalidation
mod Tests
use cartridge.Prelude.{
  ℕ, suc, Bool, true, false, Option, none, some, List, [], ◌∷◌, String, has_prefix, Comparable,
  if◌then◌else◌, length, keep,
}
use cartridge.Prelude.Int.{ℤ, ◌-ℤ◌, ltb_ℤ}
use cartridge.GoMap.{lookup, insert, delete}

pub record CacheEntry {ℓ} (V : Type ℓ) : Type ℓ where
  pub value : V
  pub last_updated : ℤ

-- (value, nil) or (zero, err)
pub data Result {ℓ} (V E : Type ℓ) : Type ℓ where
  ok : V → Result V E
  err : E → Result V E

pub record Cache {ℓ} (K V : Type ℓ) : Type ℓ where
  pub entries : List (K × CacheEntry V)
  pub ttl : ℤ

-- What a call of refresh leaves: the cache, its result, and whether it called the fetch function.
pub record Refreshed {ℓ} (K V E : Type ℓ) : Type ℓ where
  pub cache : Cache K V
  pub result : Result V E
  pub fetched : Bool

-- The value of the entry, if time.Since(entry.lastUpdated) < ttl.
unfoldable pub fresh {ℓ} : {V : Type ℓ} → ℤ → ℤ → Option (CacheEntry V) → Option V
fresh now ttl none = none
fresh now ttl (some entry) =
    if ltb_ℤ (now -ℤ entry.last_updated) ttl then some entry.value else none

-- The stale value if there is one, and the error otherwise.
abbrev pub stale {ℓ} : {V E : Type ℓ} → E → Option (CacheEntry V) → Result V E
stale problem none = err problem
stale problem (some entry) = ok entry.value

module _ {ℓ} {K V : Type ℓ} ⦃e : Comparable K⦄ where
  unfoldable pub fast_path : ℤ → K → Cache K V → Option V
  unfolding fresh
  fast_path now key c = fresh now c.ttl (lookup key c.entries)

  unfoldable pub store : ℤ → K → V → Cache K V → Cache K V
  store now key v c = record c {
    entries = insert key (record { value = v; last_updated = now }) c.entries;
  }

module _ {ℓ} {K V E : Type ℓ} ⦃e : Comparable K⦄ where
  abbrev pub settle : ℤ → K → Result V E → Cache K V → Refreshed K V E
  settle stored key (ok v) c = record {
    cache = store stored key v c;
    result = ok v;
    fetched = true;
  }
  settle stored key (err problem) c = record {
    cache = c;
    result = stale problem (lookup key c.entries);
    fetched = true;
  }

  -- The clock is read at the double check, and at the update after the fetch.
  unfoldable pub refresh : ℤ → ℤ → K → (K → Result V E) → Cache K V → Refreshed K V E
  unfolding fast_path store
  refresh checked stored key fetch c = elim (fast_path checked key c) [
    | some v ↦ record { cache = c; result = ok v; fetched = false }
    | none ↦ settle stored key (fetch key) c
  ]

  -- Get with no other goroutine between its two locks.
  unfoldable pub get : ℤ → ℤ → ℤ → K → (K → Result V E) → Cache K V → Refreshed K V E
  unfolding fast_path refresh
  get now checked stored key fetch c = elim (fast_path now key c) [
    | some v ↦ record { cache = c; result = ok v; fetched = false }
    | none ↦ refresh checked stored key fetch c
  ]

-- The type switch: a key that is no string and has no String method is skipped.
abbrev pub key_has_prefix {ℓ} : {K : Type ℓ} → (K → Option String) → String → K → Bool
key_has_prefix key_str prefix k = elim (key_str k) [ none ↦ false | some s ↦ has_prefix s prefix ]

module _ {ℓ} {K V : Type ℓ} ⦃e : Comparable K⦄ where
  unfoldable pub set : ℤ → K → V → Cache K V → Cache K V
  unfolding store
  set now key v c = store now key v c

  unfoldable pub clear : Cache K V → Cache K V
  clear c = record c { entries = [] }

  unfoldable pub remove : K → Cache K V → Cache K V
  remove key c = elim (lookup key c.entries) [
    | some _ ↦ record c { entries = delete key c.entries }
    | none ↦ c
  ]

  unfoldable pub invalidate_visited :
      (K → Bool) → List K → List (K × CacheEntry V) → ℕ → List (K × CacheEntry V) × ℕ
  invalidate_visited hit [] m count = (m, count)
  invalidate_visited hit (k ∷ visit) m count =
      let gone = invalidate_visited hit visit (delete k m) (suc count) in
      let kept = invalidate_visited hit visit m count in if hit k then gone else kept

  unfoldable pub invalidate_by_prefix :
      (K → Option String) → List K → String → Cache K V → Cache K V × ℕ
  unfolding invalidate_visited
  invalidate_by_prefix key_str visit prefix c =
      let (m, count) = invalidate_visited (key_has_prefix key_str prefix) visit c.entries 0 in
      (record c { entries = m }, count)

pub record CacheStats : Type 0 where
  pub total_entries : ℕ
  pub expired_entries : ℕ
  pub ttl : ℤ

unfoldable pub get_stats {ℓ} : {K V : Type ℓ} → ℤ → Cache K V → CacheStats
get_stats now c = record {
  total_entries = length c.entries;
  expired_entries = length (keep (λ p. ltb_ℤ c.ttl (now -ℤ p.1.last_updated)) c.entries);
  ttl = c.ttl;
}
