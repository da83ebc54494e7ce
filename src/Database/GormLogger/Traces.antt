-- ===== src/Database/GormLogger/Traces.antt =====
-- database/gorm_logger.go: which queries are written, by the configuration of the logger.
use cartridge.Prelude.{
  ℕ, ◌≡◌, refl, ap, ◌∙◌, String, Bool, true, false, Option, none, some, List, [], leb,
  if◌then◌else◌, arith,
}
use cartridge.Prelude.Int.{ℤ, ltb_ℤ}
use cartridge.Logger.{Level, level_debug, level_error}
use cartridge.Database.GormLogger.{
  GormLoggerConfig, record_not_found, query_failed, LogEntry, new_gorm_logger, emit, trace,
  query_entry, sanitize_gorm_sql, silent_level,
}

not_silent :
    (enabled : Level → Bool) (given : Option GormLoggerConfig)
    → (leb (new_gorm_logger enabled given).level silent_level ≡ false)
      × ((new_gorm_logger enabled given).config.ignore_record_not_found_error ≡ true)
unfolding new_gorm_logger
not_silent enabled given = (ground arith, ground arith)

enabled-new_gorm_logger :
    (enabled : Level → Bool) (given : Option GormLoggerConfig)
    → (new_gorm_logger enabled given).enabled ≡ enabled
unfolding new_gorm_logger
enabled-new_gorm_logger enabled given = refl

if_either : (b : Bool) (es : List LogEntry) → es ≡ [] → (if b then es else []) ≡ []
if_either true es h = h
if_either false es h = refl

emit_quiet : (enabled : Level → Bool) (e : LogEntry) → enabled e.level ≡ false → emit enabled e ≡ []
emit_quiet enabled e h = rw (h, if◌then◌else◌) refl

-- A new logger writes a failed query, at the level error, exactly when the error is not that no
-- record was found, whatever the configuration says about such errors.
pub trace_failed :
    (enabled : Level → Bool) (given : Option GormLoggerConfig) (elapsed rows : ℤ) (sql : List ℕ)
    → (e : String)
    → let l = new_gorm_logger enabled given in
      (trace l elapsed (sql, rows) (some record_not_found) ≡ [])
      × (trace l elapsed (sql, rows) (some (query_failed e))
          ≡ emit enabled
              (query_entry level_error "gorm query failed" elapsed rows (sanitize_gorm_sql sql) e))
unfolding trace
trace_failed enabled given elapsed rows sql e =
    let l = new_gorm_logger enabled given in
    let loud = not_silent enabled given in
    (
      rw (loud.0, loud.1, if◌then◌else◌) refl,
      rw (loud.0, if◌then◌else◌)
          (ap
            (λ on.
              emit on (
                query_entry level_error "gorm query failed" elapsed rows (sanitize_gorm_sql sql) e))
            (enabled-new_gorm_logger enabled given)),
    )

-- Where the slog logger leaves out the level debug, a new logger writes nothing of a query that
-- succeeds within the threshold, although its own level is info or below.
pub trace_quiet :
    (enabled : Level → Bool) (given : Option GormLoggerConfig) (elapsed rows : ℤ) (sql : List ℕ)
    → enabled level_debug ≡ false
    → ltb_ℤ (new_gorm_logger enabled given).config.slow_threshold elapsed ≡ false
    → trace (new_gorm_logger enabled given) elapsed (sql, rows) none ≡ []
unfolding trace
trace_quiet enabled given elapsed rows sql h fast =
    rw ((not_silent enabled given).0, fast, if◌then◌else◌)
      (if_either _ _ (
        emit_quiet (new_gorm_logger enabled given).enabled
          (query_entry level_debug "gorm query" elapsed rows (sanitize_gorm_sql sql) "")
          (ap (λ on. on level_debug) (enabled-new_gorm_logger enabled given) ∙ h)))
