-- ===== src/Cache/Options.antt =====
-- cache/store.go: options, their functional setters, and statistics. Durations are nanoseconds.
use mathlib.Core.List.{foldl}
use cartridge.Prelude.{ℕ, ◌*◌, String, List}
use cartridge.Prelude.Int.{ℤ, pos}

pub record Options : Type 0 where
  pub ttl : ℤ
  pub max_entries : ℤ
  pub cleanup_interval : ℤ
  pub cleanup_batch_size : ℤ

pub record Stats : Type 0 where
  pub entries : ℕ
  pub expired_entries : ℕ
  pub max_entries : ℤ
  pub ttl : ℤ
  pub backend : String

abbrev pub hour : ℕ
hour = 3600 * 1_000_000_000

abbrev pub default_options : Options
default_options = record {
  ttl = pos (14 * 24 * hour);
  max_entries = pos 0;
  cleanup_interval = pos (1 * hour);
  cleanup_batch_size = pos 100;
}

unfoldable pub with_ttl : ℤ → Options → Options
with_ttl ttl o = record o { ttl = ttl }

unfoldable pub with_max_entries : ℤ → Options → Options
with_max_entries max o = record o { max_entries = max }

unfoldable pub with_cleanup_interval : ℤ → Options → Options
with_cleanup_interval interval o = record o { cleanup_interval = interval }

unfoldable pub with_cleanup_batch_size : ℤ → Options → Options
with_cleanup_batch_size size o = record o { cleanup_batch_size = size }

unfoldable pub apply_options : List (Options → Options) → Options
apply_options opts = foldl (λ o opt. opt o) default_options opts
