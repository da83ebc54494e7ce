-- ===== src/Cache/GormCache.antt =====
-- cache/gorm_cache.go: the cache in a table that refreshes a value when it is too old. The errors of
-- the statements, the clock's readings in whole seconds and what the fetch function returns are
-- arguments; encoding/gob is the interface `Gob`. Logging is left out. Get is two steps, before and
-- after it has the lock, since other goroutines run between them.
pub mod Gets
pub mod Outage
mod Tests
use cartridge.Prelude.{
  ℕ, suc, ◌/◌, ◌≡◌, Bool, true, false, Option, none, some, List, [], ◌∷◌, String, ◌==◌,
  string_comparable, if◌then◌else◌, length, keep, not, ◌&&◌,
}
use cartridge.Prelude.Int.{ℤ, pos, negsuc, ◌+ℤ◌, ◌-ℤ◌, ltb_ℤ}
use cartridge.GoMap.{lookup, insert, delete}
use cartridge.Cache.Generic.{Result, ok, err}

-- A gob decoder writes into a variable that holds a value already, and may fail half-way. It need
-- not give back what was encoded: fields that are not exported are lost.
pub record Gob (V : Type 0) : Type 0 where
  pub zero_value : V
  pub encode : V → Option (List ℕ)
  pub decode : List ℕ → V → V × Option String

pub record CacheRecord : Type 0 where
  pub value : List ℕ
  pub last_updated : ℤ
  pub ttl_seconds : ℤ

pub record GormCache : Type 0 where
  pub rows : List (String × CacheRecord)
  pub ttl : ℤ

unfoldable pub new_gorm_cache : List (String × CacheRecord) → ℤ → GormCache
new_gorm_cache rows ttl = record { rows = rows; ttl = ttl }

-- int64(c.ttl / time.Second), which rounds to zero.
unfoldable pub whole_seconds : ℤ → ℤ
whole_seconds (pos n) = pos (n / 1_000_000_000)
whole_seconds (negsuc n) = pos 0 -ℤ pos (suc n / 1_000_000_000)

-- The answer of First: a record, gorm.ErrRecordNotFound, or another error.
pub data Found : Type 0 where
  found : CacheRecord → Found
  not_found : Found
  query_failed : String → Found

abbrev row_or : Option CacheRecord → Found
row_or none = not_found
row_or (some r) = found r

unfoldable pub first : Option String → String → GormCache → Found
first (some e) key c = query_failed e
first none key c = row_or (lookup key c.rows)

abbrev pub is_live : ℤ → CacheRecord → Bool
is_live now r = ltb_ℤ now (r.last_updated +ℤ r.ttl_seconds)

-- What Get knows when it asks for the lock: its reading of the clock, the record, and the variable
-- that the decoder wrote into.
pub record Waiting (V : Type 0) : Type 0 where
  pub now : ℤ
  pub seen : Option CacheRecord
  pub var : V

pub data Looked (V : Type 0) : Type 0 where
  hit : V → Looked V
  failed : String → Looked V
  waits : Waiting V → Looked V

pub record Refreshed (V : Type 0) : Type 0 where
  pub cache : GormCache
  pub result : Result V String
  pub fetched : Bool

abbrev pub has_bytes : List ℕ → Bool
has_bytes [] = false
has_bytes (b ∷ bs) = true

module _ {V : Type 0} (g : Gob V) where
  abbrev pub hit_or : Waiting V → Option String → Looked V
  hit_or w none = hit w.var
  hit_or w (some e) = waits w

  unfoldable pub look_found : ℤ → CacheRecord → Looked V
  look_found now r =
      let (v, e) = g.decode r.value g.zero_value in
      if is_live now r
      then hit_or (record { now = now; seen = some r; var = v }) e
      else waits (record { now = now; seen = some r; var = g.zero_value })

  -- The part of Get before the lock.
  unfoldable pub look : Option String → ℤ → String → GormCache → Looked V
  unfolding first look_found
  look failing now key c = elim (first failing key c) [
    | found r ↦ look_found now r
    | not_found ↦ waits (record { now = now; seen = none; var = g.zero_value })
    | query_failed e ↦ failed e
  ]

  -- Save, at the clock's reading `stored`. An error leaves the table as it was.
  unfoldable pub set_internal : Option String → ℤ → String → V → GormCache → GormCache
  unfolding whole_seconds
  set_internal (some e) stored key v c = c
  set_internal none stored key v c = elim (g.encode v) [
    | none ↦ c
    | some b ↦ record c {
      rows =
          insert key
            (record { value = b; last_updated = stored; ttl_seconds = whole_seconds c.ttl }) c.rows;
    }
  ]

  -- The value of an old record after a failed fetch; the error of its decoding is dropped.
  unfoldable pub stale : String → String → Option CacheRecord → V → Result V String
  stale problem key none var = err problem
  stale problem key (some r) var =
      if not (key == "") && has_bytes r.value then ok (g.decode r.value var).0 else err problem

  unfoldable pub fetch_and_store :
      Option String
      → ℤ
      → String
      → Result V String
      → Option CacheRecord
      → V
      → GormCache
      → Refreshed V
  unfolding set_internal stale
  fetch_and_store saving stored key (ok v) seen var c = record {
    cache = set_internal saving stored key v c;
    result = ok v;
    fetched = true;
  }
  fetch_and_store saving stored key (err problem) seen var c = record {
    cache = c;
    result = stale problem key seen var;
    fetched = true;
  }

  abbrev pub after_check : GormCache → V × Option String → (V → Refreshed V) → Refreshed V
  after_check c (v, none) rest = record { cache = c; result = ok v; fetched = false }
  after_check c (v, some e) rest = rest v

  -- The part of Get with the lock. First leaves the record as it was where it finds nothing, and the
  -- double check reads the clock but compares the reading from before the lock.
  unfoldable pub refresh :
      Option String
      → Option String
      → ℤ
      → String
      → (String → Result V String)
      → Waiting V
      → GormCache
      → Refreshed V
  unfolding first fetch_and_store
  refresh failing saving stored key fetch w c =
      let fetched = λ (seen : Option CacheRecord) (var : V).
        fetch_and_store saving stored key (fetch key) seen var c in
      elim (first failing key c) [
        | found r ↦
            if is_live w.now r
            then after_check c (g.decode r.value w.var) (fetched (some r))
            else fetched (some r) w.var
        | not_found ↦ fetched w.seen w.var
        | query_failed e ↦ fetched w.seen w.var
      ]

  abbrev pub after_look : GormCache → Looked V → (Waiting V → Refreshed V) → Refreshed V
  after_look c (hit v) rest = record { cache = c; result = ok v; fetched = false }
  after_look c (failed e) rest = record { cache = c; result = err e; fetched = false }
  after_look c (waits w) rest = rest w

  -- Get with no other goroutine between its two steps.
  unfoldable pub get :
      Option String
      → Option String
      → Option String
      → ℤ
      → ℤ
      → String
      → (String → Result V String)
      → GormCache
      → Refreshed V
  unfolding look refresh
  get failing checking saving now stored key fetch c =
      after_look c (look failing now key c) (λ w. refresh checking saving stored key fetch w c)

  unfoldable pub set : Option String → ℤ → String → V → GormCache → GormCache
  unfolding set_internal
  set saving stored key v c = set_internal saving stored key v c

unfoldable pub remove : Option String → String → GormCache → GormCache
remove (some e) key c = c
remove none key c = record c { rows = delete key c.rows }

unfoldable pub clear : Option String → GormCache → GormCache
clear (some e) c = c
clear none c = record c { rows = [] }

-- `matching` tells which keys are LIKE the prefix with a `%` after it.
unfoldable pub invalidate_by_prefix : Option String → (String → Bool) → GormCache → GormCache × ℕ
invalidate_by_prefix (some e) matching c = (c, 0)
invalidate_by_prefix none matching c = (
  record c { rows = keep (λ p. if matching p.0 then false else true) c.rows },
  length (keep (λ p. matching p.0) c.rows),
)

pub record GormStats : Type 0 where
  pub total_entries : ℕ
  pub expired_entries : ℕ
  pub configured_ttl : ℤ

unfoldable pub get_stats : ℤ → GormCache → GormStats
get_stats now c = record {
  total_entries = length c.rows;
  expired_entries = length (keep (λ p. ltb_ℤ (p.1.last_updated +ℤ p.1.ttl_seconds) now) c.rows);
  configured_ttl = c.ttl;
}

-- The table and the number of its rows, or the error.
unfoldable pub purge_all_caches :
    Option String → List (String × CacheRecord) → List (String × CacheRecord) × Result ℕ String
purge_all_caches (some e) rows = (rows, err e)
purge_all_caches none rows = ([], ok (length rows))
