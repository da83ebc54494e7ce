-- ===== src/Database/GormLogger/Tests.antt =====
-- Loggers of GORM at concrete inputs.
use cartridge.Prelude.{◌≡◌, refl, none, [], ◌∷◌}
use cartridge.Prelude.Int.{pos, leb_ℤ}
use cartridge.Logger.{level_info}
use cartridge.Database.GormLogger.{new_gorm_logger, trace, sanitize_gorm_sql}
use cartridge.Database.GormLogger.Traces.{trace_quiet}

program : Unit {0}
unfolding sanitize_gorm_sql new_gorm_logger
program = tt

-- " a\n\tb " becomes "a b".
sanitize_ab : sanitize_gorm_sql (32 ∷ 97 ∷ 10 ∷ 9 ∷ 98 ∷ 194 ∷ 160 ∷ []) ≡ 97 ∷ 32 ∷ 98 ∷ []
unfolding program
sanitize_ab = refl

trace_quiet_example :
    trace (new_gorm_logger (leb_ℤ level_info) none) (pos 5) (97 ∷ [], pos 1) none ≡ []
unfolding program
trace_quiet_example = trace_quiet (leb_ℤ level_info) none (pos 5) (pos 1) (97 ∷ []) refl refl
