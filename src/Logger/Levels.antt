-- ===== src/Logger/Levels.antt =====
-- logger.go with config/config.go: the level of the logger of a loaded configuration; the files of
-- a production logger; what the coloured handler keeps of attributes.
use cartridge.Prelude.{
  ◌≡◌, refl, ap, sym, subst, ◌∙◌, Bool-cases, String, Bool, true, false, ◌||◌, none, List, ◌==◌,
  if◌then◌else◌, arith, string_comparable, inl, inr,
}
use cartridge.Prelude.Int.{ℤ, pos, ◌<ℤ◌}
use cartridge.Config.{
  Config, development, production, test, Unmarshal, settings_of, has_default_level, loaded, load,
  is_development, is_production, is_test,
}
use cartridge.Config.Getters.{LogSettings, log_settings}
use cartridge.Config.Loads.{load-Ready, load_local}
use cartridge.Logger.{
  Level, Logger, dev_logger, stdout_logger, file_logger, AppConfig, app_config, parse_level,
  is_debug, level_info, resolve_log_level, new_logger, new_prod_logger, new_dev_logger, or_positive,
  Rotator, ColorHandler, LogRecord, handle, enabled, with_attrs, with_group,
}

local_not_production :
    (c : Config) → (is_development c || is_test c) ≡ true → is_production c ≡ false
local_not_production c h = elim (Bool-cases (is_production c)) [
  | inl p ↦
      let env = (string_comparable.equal_iff c.environment production).0 p in
      absurd (ground (arith, sym (ap (λ e. e == development || e == test) env) ∙ h))
  | inr n ↦ n
]

resolve_log_level_set :
    (getenv : String → String) (cfg : AppConfig) (s : String)
    → (s == "") ≡ false
    → resolve_log_level getenv cfg s
      ≡ parse_level (if getenv "LOG_LEVEL" == "" then s else getenv "LOG_LEVEL")
unfolding resolve_log_level
resolve_log_level_set getenv cfg s set = elim (Bool-cases (getenv "LOG_LEVEL" == "")) [
  | inl unset ↦ rw (unset, if◌then◌else◌, set) refl
  | inr given ↦ rw (given, given, if◌then◌else◌) refl
]

-- In development and test, the logger of a loaded configuration is the coloured one, at the level
-- that LOG_LEVEL names, else the one that the configuration names: the level that the logger has for
-- an unset one is never used.
pub new_logger-load :
    (unmarshal : Unmarshal) (getenv : String → String) (name : String) (c : Config)
    → (mkdir : String → Bool) → (load unmarshal getenv name).0 ≡ loaded c
    → (is_development c || is_test c) ≡ true
    → let env_level = getenv "LOG_LEVEL" in
      let level = parse_level (if env_level == "" then c.log_level else env_level) in
      new_logger getenv mkdir (app_config c) none ≡ dev_logger level (is_debug level)
unfolding new_logger new_dev_logger log_settings
new_logger-load unmarshal getenv name c mkdir h local =
    let ready = load-Ready unmarshal getenv name c h in
    let set : (c.log_level == "") ≡ false = ground (arith, ready.2, local_not_production c local) in
    rw (local, if◌then◌else◌)
      (ap new_dev_logger (resolve_log_level_set getenv (app_config c) c.log_level set))

-- In development and test, where viper reads the default level "error" or an empty one and LOG_LEVEL
-- is not set, the logger of the loaded configuration has the level info, in development too.
pub new_logger-load_default :
    (unmarshal : Unmarshal) (getenv : String → String) (name : String) (read c : Config)
    → (mkdir : String → Bool) → unmarshal (settings_of name) ≡ inl read
    → has_default_level read ≡ true
    → (is_development read || is_test read) ≡ true
    → (load unmarshal getenv name).0 ≡ loaded c
    → getenv "LOG_LEVEL" ≡ ""
    → new_logger getenv mkdir (app_config c) none ≡ dev_logger level_info false
unfolding parse_level
new_logger-load_default unmarshal getenv name read c mkdir found unset local h no_env =
    let set = load_local unmarshal getenv name read c found unset local h in
    let local' = ap (λ e. e == development || e == test) set.0 ∙ local in
    new_logger-load unmarshal getenv name c mkdir h local'
    ∙ ap (λ l. dev_logger (parse_level l) (is_debug (parse_level l)))
        (ap (λ e. if e == "" then c.log_level else e) no_env ∙ set.1)

or_positive_bound : (n m : ℤ) → pos 0 <ℤ m → pos 0 <ℤ or_positive n m
or_positive_bound n m h = ground (arith, h)

Positive : Rotator → Type 0
Positive r = (pos 0 <ℤ r.max_size) × (pos 0 <ℤ r.max_backups) × (pos 0 <ℤ r.max_age)

Rotates : Logger → Type 0
Rotates (dev_logger level source) = Unit
Rotates (stdout_logger level) = Unit
Rotates (file_logger level source r) = Positive r

Rotates-if :
    (b : Bool) (level : Level) (source : Bool) (r : Rotator)
    → pos 0 <ℤ r.max_size
    → pos 0 <ℤ r.max_backups
    → pos 0 <ℤ r.max_age
    → Rotates (if b then file_logger level source r else stdout_logger level)
unfolding Rotates Positive
Rotates-if true level source r s b a = (s, b, a)
Rotates-if false level source r s b a = tt

new_prod_logger-Rotates :
    (mkdir : String → Bool) (level : Level) (cfg : LogSettings)
    → Rotates (new_prod_logger mkdir level cfg)
unfolding new_prod_logger Rotates Positive
new_prod_logger-Rotates mkdir level cfg =
    Rotates-if _ level _ _ (or_positive_bound cfg.max_size_mb (pos 100) (omega arith))
      (or_positive_bound cfg.max_backups (pos 3) (omega arith))
      (or_positive_bound cfg.max_age_days (pos 28) (omega arith))

-- Outside development and test, a logger that writes a file rotates it by a size, a number of
-- backups and an age that are all positive.
pub new_prod_logger_bounds :
    (mkdir : String → Bool) (level : Level) (cfg : LogSettings) (source : Bool) (r : Rotator)
    → new_prod_logger mkdir level cfg ≡ file_logger level source r
    → (pos 0 <ℤ r.max_size) × (pos 0 <ℤ r.max_backups) × (pos 0 <ℤ r.max_age)
unfolding Rotates Positive
new_prod_logger_bounds mkdir level cfg source r h =
    subst Rotates h (new_prod_logger-Rotates mkdir level cfg)

-- The coloured handler writes the same line, and lets the same levels through, whatever attributes
-- and groups it has been given before.
pub handle-with :
    (attrs : List (String × String)) (name : String) (h : ColorHandler) (r : LogRecord)
    (level : Level)
    → (handle (with_attrs attrs h) r ≡ handle h r)
      × (handle (with_group name h) r ≡ handle h r)
      × (enabled (with_attrs attrs h) level ≡ enabled h level)
      × (enabled (with_group name h) level ≡ enabled h level)
unfolding handle with_attrs with_group enabled
handle-with attrs name h r level = (refl, refl, refl, refl)
