-- ===== src/Cache/Generic/Tests.antt =====
-- Runs of the generic cache, and its theorems at concrete inputs.
use cartridge.Prelude.{
  ℕ, ◌≡◌, refl, String, true, false, [], ◌∷◌, arith, string_comparable, nat_comparable, has_prefix,
  All,
}
use cartridge.Prelude.Int.{pos, ◌-ℤ◌}
use cartridge.GoMap.{lookup, insert, delete, Visits}
use cartridge.Cache.Generic.{
  Result, ok, err, Cache, get, refresh, set, invalidate_by_prefix, fast_path,
}
use cartridge.Cache.Generic.Gets.{queued, refresh-single_fetch}

program : Unit {0}
unfolding get refresh set insert lookup delete fast_path invalidate_by_prefix has_prefix ◌-ℤ◌
program = tt

abbrev empty : Cache String ℕ
empty = record { entries = []; ttl = pos 10 }

abbrev one : Cache String ℕ
one = record empty { entries = ("user:1", record { value = 7; last_updated = pos 0 }) ∷ [] }

abbrev failing : String → Result ℕ ℕ
failing key = err 500

abbrev fetching : String → Result ℕ ℕ
fetching key = ok 8

stale_on_error : (get (pos 50) (pos 50) (pos 51) "user:1" failing one).result ≡ ok 7
unfolding program
stale_on_error = refl

refresh-single_fetch_example :
    (refresh (pos 50) (pos 52) "user:1" fetching one
      ≡ record { cache = set (pos 52) "user:1" 8 one; result = ok 8; fetched = true })
    × All
        (λ r. r ≡ record { cache = set (pos 52) "user:1" 8 one; result = ok 8; fetched = false })
        (queued (pos 53 ∷ pos 61 ∷ []) "user:1" fetching (set (pos 52) "user:1" 8 one))
unfolding program
refresh-single_fetch_example =
    refresh-single_fetch (pos 50) (pos 52) (pos 53 ∷ pos 61 ∷ []) "user:1" 8 fetching one refl refl
      (omega arith, (omega arith, tt))

one-Visits : Visits ("user:1" ∷ []) one.entries
one-Visits = record { distinct = (refl, tt); same = λ k. refl }
