-- ===== src/Cache/DatabaseStore.antt =====
-- cache/database_store.go: the store in a table with one row for each key. What the database decides
-- is an argument: the error of a statement, the keys that the subquery with ORDER BY and LIMIT
-- gives, and which keys a LIKE pattern matches. The clock is in milliseconds.
pub mod Rows
pub mod Bound
mod Tests
use cartridge.Prelude.{
  ℕ, suc, ◌-◌, ◌/◌, String, Bool, true, false, ◌==◌, if◌then◌else◌, Option, none, some, List, [],
  ◌∷◌, length, keep, string_comparable, map,
}
use cartridge.Prelude.Int.{ℤ, pos, negsuc, ◌+ℤ◌, ◌-ℤ◌, ltb_ℤ, leb_ℤ}
use cartridge.GoMap.{lookup, insert, delete}
use cartridge.Cache.Options.{Options, Stats, apply_options}

pub record Row : Type 0 where
  pub value : List ℕ
  pub expires_at : ℤ
  pub created_at : ℤ

pub record DatabaseStore : Type 0 where
  pub rows : List (String × Row)
  pub opts : Options
  pub closed : Bool

-- `migrating` is the error of AutoMigrate, `rows` what the table holds.
unfoldable pub new_database_store :
    Option String → List (String × Row) → List (Options → Options) → Option DatabaseStore
unfolding apply_options
new_database_store (some e) rows opts = none
new_database_store none rows opts =
    some (record { rows = rows; opts = apply_options opts; closed = false })

-- ttl.Milliseconds(), which rounds to zero.
unfoldable pub milliseconds : ℤ → ℤ
milliseconds (pos n) = pos (n / 1_000_000)
milliseconds (negsuc n) = pos 0 -ℤ pos (suc n / 1_000_000)

abbrev pub live : ℤ → Row → Option (List ℕ)
live now row = if ltb_ℤ now row.expires_at then some row.value else none

-- An error of the query is as if there were no row.
unfoldable pub read : Option String → ℤ → String → DatabaseStore → Option (List ℕ)
read (some e) now key s = none
read none now key s = elim (lookup key s.rows) [ none ↦ none | some row ↦ live now row ]

-- The count stays 0 where the query fails.
unfoldable pub exist : Option String → ℤ → String → DatabaseStore → Bool
exist (some e) now key s = false
exist none now key s = elim (lookup key s.rows) [
  | none ↦ false
  | some row ↦ ltb_ℤ now row.expires_at
]

unfoldable pub delete_rows : List String → List (String × Row) → List (String × Row)
delete_rows [] rows = rows
delete_rows (key ∷ ks) rows = delete_rows ks (delete key rows)

-- `oldest` is what the subquery gives: the keys of the oldest rows, as many as the excess.
unfoldable pub enforce_limit : List String → DatabaseStore → DatabaseStore
unfolding delete_rows
enforce_limit oldest s =
    if leb_ℤ s.opts.max_entries (pos 0)
    then s
    else if leb_ℤ (pos (length s.rows)) s.opts.max_entries
    then s
    else record s { rows = delete_rows oldest s.rows }

-- Save updates the row of a present key and inserts a row otherwise.
abbrev pub saved : ℤ → String → List ℕ → ℤ → DatabaseStore → DatabaseStore
saved now key value ttl s = record s {
  rows =
      insert key (record { value = value; expires_at = now +ℤ milliseconds ttl; created_at = now })
        s.rows;
}

unfoldable pub write_with_ttl :
    Option String
    → List String
    → ℤ
    → String
    → List ℕ
    → ℤ
    → DatabaseStore
    → DatabaseStore × Option String
unfolding enforce_limit milliseconds
write_with_ttl (some e) oldest now key value ttl s = (s, some e)
write_with_ttl none oldest now key value ttl s =
    (enforce_limit oldest (saved now key value ttl s), none)

unfoldable pub write :
    Option String
    → List String
    → ℤ
    → String
    → List ℕ
    → DatabaseStore
    → DatabaseStore × Option String
unfolding write_with_ttl
write err oldest now key value s = write_with_ttl err oldest now key value s.opts.ttl s

unfoldable pub delete_row : Option String → String → DatabaseStore → DatabaseStore × Option String
delete_row (some e) key s = (s, some e)
delete_row none key s = (record s { rows = delete key s.rows }, none)

-- `matching` tells which keys are LIKE the prefix with a `%` after it. The count is RowsAffected.
unfoldable pub delete_by_prefix :
    Option String → (String → Bool) → DatabaseStore → DatabaseStore × ℕ × Option String
delete_by_prefix (some e) matching s = (s, 0, some e)
delete_by_prefix none matching s = (
  record s { rows = keep (λ p. if matching p.0 then false else true) s.rows },
  length (keep (λ p. matching p.0) s.rows),
  none,
)

unfoldable pub clear : Option String → DatabaseStore → DatabaseStore × Option String
clear (some e) s = (s, some e)
clear none s = (record s { rows = [] }, none)

unfoldable pub stats : ℤ → DatabaseStore → Stats
stats now s = record {
  entries = length s.rows;
  expired_entries = length (keep (λ p. leb_ℤ p.1.expires_at now) s.rows);
  max_entries = s.opts.max_entries;
  ttl = s.opts.ttl;
  backend = "database";
}

-- Closing the stop channel a second time panics, which is `none`.
unfoldable pub close : DatabaseStore → Option DatabaseStore
close s = if s.closed then none else some (record s { closed = true })

-- `batch` is the keys that the DELETE with its LIMIT takes.
unfoldable pub cleanup : List String → DatabaseStore → DatabaseStore
unfolding delete_rows
cleanup batch s = record s { rows = delete_rows batch s.rows }
