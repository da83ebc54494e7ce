-- ===== src/Cache/GormCache/Tests.antt =====
-- A cache of numbers, and its theorems at concrete inputs.
use cartridge.Prelude.{
  ℕ, ◌≡◌, refl, arith, String, true, false, Option, none, some, List, [], ◌∷◌, string_comparable,
  All,
}
use cartridge.Prelude.Int.{pos, ◌+ℤ◌}
use cartridge.GoMap.{lookup, insert}
use cartridge.Cache.Generic.{Result, ok, err}
use cartridge.Cache.GormCache.{
  Gob, CacheRecord, GormCache, whole_seconds, first, Waiting, look_found, look, set_internal, stale,
  fetch_and_store, refresh, get, set, has_bytes,
}
use cartridge.Cache.GormCache.Gets.{queue, get-after_set, refresh-one_fetch}
use cartridge.Cache.GormCache.Outage.{get-outage}

program : Unit {0}
unfolding whole_seconds first look_found look set_internal stale fetch_and_store refresh get set
    lookup insert ◌+ℤ◌
program = tt

-- A number is one byte; any other text is an error that leaves a 99 in the variable.
abbrev decode_number : List ℕ → ℕ → ℕ × Option String
decode_number (n ∷ []) var = (n, none)
decode_number [] var = (var, some "EOF")
decode_number (n ∷ m ∷ bs) var = (99, some "extra data")

abbrev numbers : Gob ℕ
numbers = record { zero_value = 0; encode = λ v. some (v ∷ []); decode = decode_number }

abbrev empty : GormCache
empty = record { rows = []; ttl = pos 5_000_000_000 }

abbrev answer : String → Result ℕ String
answer key = ok 42

abbrev down : String → Result ℕ String
down key = err "down"

-- The bytes of the record cannot be decoded, and the fetch fails: Get returns no error.
abbrev broken : GormCache
broken = record {
  rows = ("k", record { value = 1 ∷ 2 ∷ []; last_updated = pos 10; ttl_seconds = pos 5 }) ∷ [];
  ttl = pos 5_000_000_000;
}

undecodable : (get numbers none none none (pos 12) (pos 12) "k" down broken).result ≡ ok 99
unfolding program
undecodable = refl

get-after_set_example :
    get numbers none none none (pos 14) (pos 14) "k" down (set numbers none (pos 10) "k" 7 empty)
    ≡ record { cache = set numbers none (pos 10) "k" 7 empty; result = ok 7; fetched = false }
unfolding program
get-after_set_example =
    get-after_set numbers (pos 10) "k" 7 (7 ∷ []) empty none none (pos 14) (pos 14) down refl refl
      (omega arith)

abbrev waiting : Waiting ℕ
waiting = record { now = pos 9; seen = none; var = 0 }

refresh-one_fetch_example :
    (refresh numbers none none (pos 10) "k" answer waiting empty
      ≡ record { cache = set numbers none (pos 10) "k" 42 empty; result = ok 42; fetched = true })
    × All
        (λ r. r ≡ record {
          cache = set numbers none (pos 10) "k" 42 empty;
          result = ok 42;
          fetched = false;
        })
        (queue numbers "k" answer (waiting ∷ waiting ∷ []) (set numbers none (pos 10) "k" 42 empty))
unfolding program
refresh-one_fetch_example =
    refresh-one_fetch numbers (pos 10) "k" 42 (42 ∷ []) answer waiting (waiting ∷ waiting ∷ [])
      empty refl refl refl refl ((omega arith, refl), ((omega arith, refl), tt))

abbrev brief : GormCache
brief = record { rows = []; ttl = pos 500_000_000 }

get-outage_example :
    ((r : CacheRecord)
      → lookup "k" broken.rows ≡ some r
      → has_bytes r.value ≡ true
      → (v : ℕ) × ((get numbers none none none (pos 30) (pos 30) "k" down broken).result ≡ ok v))
    × (lookup "k" broken.rows ≡ none
        → (get numbers none none none (pos 30) (pos 30) "k" down broken).result ≡ down "k")
get-outage_example = get-outage numbers none (pos 30) (pos 30) "k" down broken refl
