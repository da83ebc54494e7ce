-- ===== src/Database/GormLogger.antt =====
-- database/gorm_logger.go: GORM's logger on top of a slog logger, which is the test of its levels.
-- SQL is a list of bytes in UTF-8. The result is what is written: nothing, or one entry.
pub mod Traces
mod Tests
use cartridge.Prelude.{
  ℕ, zero, suc, ◌*◌, String, Bool, true, false, not, ◌&&◌, ◌||◌, Option, none, some, List, [], ◌∷◌,
  ◌++◌, nat_beq, leb, ltb, length, take, if◌then◌else◌,
}
use cartridge.Prelude.Int.{ℤ, pos, leb_ℤ, ltb_ℤ}
use cartridge.Logger.{Level, level_debug, level_info, level_warn, level_error}

pub record GormLoggerConfig : Type 0 where
  pub slow_threshold : ℤ
  pub ignore_record_not_found_error : Bool

-- The levels of package gorm/logger, in its order.
abbrev pub silent_level : ℕ
silent_level = 1

abbrev pub error_level : ℕ
error_level = 2

abbrev pub warn_level : ℕ
warn_level = 3

abbrev pub info_level : ℕ
info_level = 4

pub record GormLogger : Type 0 where
  pub enabled : Level → Bool
  pub level : ℕ
  pub config : GormLoggerConfig

pub data QueryError : Type 0 where
  record_not_found : QueryError
  query_failed : String → QueryError

pub record LogEntry : Type 0 where
  pub level : Level
  pub message : String
  pub elapsed : ℤ
  pub rows : ℤ
  pub sql : List ℕ
  pub error : String

abbrev pub given_or_zero : Option GormLoggerConfig → GormLoggerConfig
given_or_zero none = record { slow_threshold = pos 0; ignore_record_not_found_error = false }
given_or_zero (some cfg) = cfg

abbrev is_zero : ℤ → Bool
is_zero n = leb_ℤ n (pos 0) && leb_ℤ (pos 0) n

unfoldable pub new_gorm_logger : (Level → Bool) → Option GormLoggerConfig → GormLogger
new_gorm_logger enabled given =
    let cfg = given_or_zero given in
    record {
      enabled = enabled;
      level =
          if enabled level_debug
          then info_level
          else if enabled level_info
          then info_level
          else if enabled level_warn
          then warn_level
          else error_level;
      config = record {
        slow_threshold =
            if is_zero cfg.slow_threshold then pos (200 * 1_000_000) else cfg.slow_threshold;
        ignore_record_not_found_error =
            if not cfg.ignore_record_not_found_error
            then true
            else cfg.ignore_record_not_found_error;
      };
    }

unfoldable pub log_mode : ℕ → GormLogger → GormLogger
log_mode level l = record l { level = level }

-- What the slog logger writes of an entry.
abbrev pub emit : (Level → Bool) → LogEntry → List LogEntry
emit enabled e = if enabled e.level then e ∷ [] else []

abbrev pub plain : Level → String → LogEntry
plain level message = record {
  level = level;
  message = message;
  elapsed = pos 0;
  rows = pos 0;
  sql = [];
  error = "";
}

abbrev pub query_entry : Level → String → ℤ → ℤ → List ℕ → String → LogEntry
query_entry level message elapsed rows sql error = record {
  level = level;
  message = message;
  elapsed = elapsed;
  rows = rows;
  sql = sql;
  error = error;
}

abbrev space_1 : ℕ → Bool
space_1 b = leb 9 b && leb b 13 || nat_beq b 32

abbrev space_2 : ℕ → ℕ → Bool
space_2 b c = nat_beq b 194 && (nat_beq c 133 || nat_beq c 160)

abbrev space_3 : ℕ → ℕ → ℕ → Bool
space_3 b c d =
    nat_beq b 225 && nat_beq c 154 && nat_beq d 128
    || nat_beq b 226
      && (nat_beq c 128
            && (leb 128 d && leb d 138 || nat_beq d 168 || nat_beq d 169 || nat_beq d 175)
          || nat_beq c 129 && nat_beq d 159)
    || nat_beq b 227 && nat_beq c 128 && nat_beq d 128

-- How many bytes a leading white space of unicode.IsSpace has, 0 if there is none.
abbrev space_width : List ℕ → ℕ
space_width [] = 0
space_width (b ∷ []) = if space_1 b then 1 else 0
space_width (b ∷ c ∷ []) = if space_1 b then 1 else if space_2 b c then 2 else 0
space_width (b ∷ c ∷ d ∷ rest) =
    if space_1 b then 1 else if space_2 b c then 2 else if space_3 b c d then 3 else 0

-- strings.TrimSpace on both sides; the number counts the bytes of a white space that are still to be
-- left out.
unfoldable pub trim_left_from : ℕ → List ℕ → List ℕ
trim_left_from skip [] = []
trim_left_from (suc skip) (b ∷ s) = trim_left_from skip s
trim_left_from zero (b ∷ s) = elim (space_width (b ∷ s)) [
  | zero ↦ b ∷ s
  | suc skip ↦ trim_left_from skip s
]

unfoldable pub all_space : ℕ → List ℕ → Bool
all_space skip [] = true
all_space (suc skip) (b ∷ s) = all_space skip s
all_space zero (b ∷ s) = elim (space_width (b ∷ s)) [ zero ↦ false | suc skip ↦ all_space skip s ]

unfoldable pub trim_right : List ℕ → List ℕ
unfolding all_space
trim_right [] = []
trim_right (b ∷ s) = let rest = trim_right s in if all_space 0 (b ∷ s) then [] else b ∷ rest

-- What `\s` matches in package regexp.
abbrev pub is_regexp_space : ℕ → Bool
is_regexp_space b = nat_beq b 9 || nat_beq b 10 || nat_beq b 12 || nat_beq b 13 || nat_beq b 32

-- Each run of such characters becomes one space; the Boolean tells whether one is under way.
unfoldable pub collapse : Bool → List ℕ → List ℕ
collapse inside [] = []
collapse inside (b ∷ s) =
    let after = collapse true s in
    let fresh = collapse false s in
    if is_regexp_space b then (if inside then after else 32 ∷ after) else b ∷ fresh

abbrev shortened : List ℕ → List ℕ
shortened s = if ltb 500 (length s) then take 500 s ++ 46 ∷ 46 ∷ 46 ∷ [] else s

unfoldable pub sanitize_gorm_sql : List ℕ → List ℕ
unfolding trim_left_from trim_right collapse
sanitize_gorm_sql s = shortened (collapse false (trim_right (trim_left_from 0 s)))

-- The message has been formatted.
unfoldable pub info : GormLogger → String → List LogEntry
info l message = if leb info_level l.level then emit l.enabled (plain level_info message) else []

unfoldable pub warn : GormLogger → String → List LogEntry
warn l message = if leb warn_level l.level then emit l.enabled (plain level_warn message) else []

unfoldable pub error : GormLogger → String → List LogEntry
error l message = if leb error_level l.level then emit l.enabled (plain level_error message) else []

-- The answer of Trace for a level above silent.
abbrev pub traced : GormLogger → ℤ → List ℕ × ℤ → Option QueryError → List LogEntry
traced l elapsed (sql, rows) (some record_not_found) =
    if l.config.ignore_record_not_found_error
    then []
    else emit l.enabled
        (query_entry level_error "gorm query failed" elapsed rows sql "record not found")
traced l elapsed (sql, rows) (some (query_failed e)) =
    emit l.enabled (query_entry level_error "gorm query failed" elapsed rows sql e)
traced l elapsed (sql, rows) none =
    if ltb_ℤ l.config.slow_threshold elapsed && leb warn_level l.level
    then emit l.enabled (query_entry level_warn "gorm slow query" elapsed rows sql "")
    else if leb info_level l.level
    then emit l.enabled (query_entry level_debug "gorm query" elapsed rows sql "")
    else []

-- `elapsed` is the time since the query began, `query` its SQL and the number of its rows.
unfoldable pub trace : GormLogger → ℤ → List ℕ × ℤ → Option QueryError → List LogEntry
unfolding sanitize_gorm_sql
trace l elapsed (sql, rows) err =
    if leb l.level silent_level then [] else traced l elapsed (sanitize_gorm_sql sql, rows) err
