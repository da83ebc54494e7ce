-- ===== src/Cache/DatabaseStore/Tests.antt =====
-- A store of two rows, and the theorems about it at concrete inputs.
use cartridge.Prelude.{
  ℕ, ◌+◌, ◌≡◌, refl, String, Bool, false, none, some, [], ◌∷◌, string_comparable, has_prefix,
}
use cartridge.Prelude.Int.{pos, ◌+ℤ◌, ◌-ℤ◌}
use cartridge.GoMap.{lookup, insert, delete}
use cartridge.Cache.DatabaseStore.{
  Row, DatabaseStore, saved, read, exist, delete_rows, enforce_limit, write_with_ttl, milliseconds,
  delete_by_prefix,
}
use cartridge.Cache.DatabaseStore.Rows.{chosen, write_with_ttl-read}
use cartridge.Cache.DatabaseStore.Bound.{Selects}

program : Unit {0}
unfolding read exist delete_rows enforce_limit write_with_ttl milliseconds delete_by_prefix chosen
    lookup insert delete has_prefix ◌+ℤ◌ ◌-ℤ◌
program = tt

abbrev row : ℕ → Row
row t = record { value = t ∷ []; expires_at = pos (t + 100); created_at = pos t }

abbrev two : DatabaseStore
two = record {
  rows = ("a:1", row 1) ∷ ("b", row 2) ∷ [];
  opts = record {
    ttl = pos 5_000_000;
    max_entries = pos 2;
    cleanup_interval = pos 0;
    cleanup_batch_size = pos 10;
  };
  closed = false;
}

abbrev written : DatabaseStore
written = (write_with_ttl none ("a:1" ∷ []) (pos 10) "c" (7 ∷ []) (pos 3_999_999) two).0

-- The time to live is cut to 3 milliseconds.
expires : read none (pos 13) "c" written ≡ none
unfolding program
expires = refl

-- A written key takes a new place: the row that is written again is the newest one.
rewritten :
    (write_with_ttl none [] (pos 10) "a:1" (7 ∷ []) (pos 0) two).0.rows
    ≡ ("a:1", record { value = 7 ∷ []; expires_at = pos 10; created_at = pos 10 })
      ∷ ("b", row 2)
      ∷ []
unfolding program
rewritten = refl

write_with_ttl-read_example : read none (pos 12) "c" written ≡ some (7 ∷ [])
unfolding program
write_with_ttl-read_example =
    write_with_ttl-read ("a:1" ∷ []) (pos 10) "c" (7 ∷ []) (pos 3_999_999) (pos 12) "c" two

selects : Selects ("a:1" ∷ []) 2 (saved (pos 10) "c" (7 ∷ []) (pos 3_999_999) two).rows
unfolding program
selects = record { distinct = (refl, tt); present = (refl, tt); count = λ l. refl }

abbrev in_a : String → Bool
in_a key = has_prefix key "a:"
