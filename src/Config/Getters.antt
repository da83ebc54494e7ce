-- ===== src/Config/Getters.antt =====
-- config/config.go: what the other packages ask of a configuration.
use cartridge.Prelude.{String, if◌then◌else◌}
use cartridge.Prelude.Int.{ℤ, pos, ltb_ℤ}
use cartridge.Config.{Config, is_production}

-- GetMaxOpenConns and GetMaxIdleConns
unfoldable pub get_max_open_conns : Config → ℤ
get_max_open_conns c =
    if ltb_ℤ (pos 0) c.max_open_conns
    then c.max_open_conns
    else if is_production c
    then pos 10
    else pos 1

unfoldable pub get_max_idle_conns : Config → ℤ
get_max_idle_conns c =
    if ltb_ℤ (pos 0) c.max_idle_conns
    then c.max_idle_conns
    else if is_production c
    then pos 5
    else pos 1

-- The other methods: two constants, and the fields themselves.
abbrev pub get_public_directory : Config → String
get_public_directory c = "web/static"

abbrev pub get_assets_prefix : Config → String
get_assets_prefix c = "/assets"

-- What the logger reads of a configuration (LogConfigProvider).
pub record LogSettings : Type 0 where
  pub level : String
  pub directory : String
  pub max_size_mb : ℤ
  pub max_backups : ℤ
  pub max_age_days : ℤ
  pub app_name : String

-- GetLogLevel, GetLogDirectory, GetLogMaxSizeMB, GetLogMaxBackups, GetLogMaxAgeDays, GetAppName
unfoldable pub log_settings : Config → LogSettings
log_settings c = record {
  level = c.log_level;
  directory = c.logs_directory;
  max_size_mb = c.logs_max_size_mb;
  max_backups = c.logs_max_backups;
  max_age_days = c.logs_max_age_days;
  app_name = c.app_name;
}
