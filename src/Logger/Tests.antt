-- ===== src/Logger/Tests.antt =====
-- Configurations and loggers at concrete inputs: an application "shop" in development, with what
-- viper reads for it.
use cartridge.Prelude.{
  ◌≡◌, refl, String, true, false, none, [], ◌==◌, inl, string_comparable, if◌then◌else◌,
}
use cartridge.Prelude.Int.{pos, ◌<ℤ◌}
use cartridge.Config.{
  Config, Unmarshal, loaded, load, resolved, validate, settings_of, resolve_database_path,
  join_path,
}
use cartridge.Config.Getters.{LogSettings}
use cartridge.Config.Loads.{load-Ready, Ready}
use cartridge.Logger.{
  Rotator, ColorHandler, LogRecord, new_logger, new_prod_logger, dev_logger, app_config, level_info,
  level_error, parse_level,
}
use cartridge.Logger.Levels.{new_logger-load, new_prod_logger_bounds}

abbrev read : Config
read = record {
  app_name = "shop";
  environment = "development";
  port = "8080";
  debug = false;
  log_level = "error";
  logs_directory = "storage/logs";
  logs_max_size_mb = pos 20;
  logs_max_backups = pos 10;
  logs_max_age_days = pos 30;
  session_secret = "";
  session_timeout = pos 604800;
  data_directory = "storage";
  database_filename = "shop.db";
  database_path = "";
  max_open_conns = pos 0;
  max_idle_conns = pos 0;
  env_prefix = "";
}

abbrev viper : Unmarshal
viper settings = inl read

abbrev getenv : String → String
getenv name = if name == "PRIVATE_KEY" then "key" else ""

abbrev shop : Config
shop = record read {
  env_prefix = "SHOP";
  database_path = "storage/shop.development.db";
  log_level = "info";
  session_secret = "key";
}

load-shop : (load viper getenv " Shop").0 ≡ loaded shop
unfolding load validate settings_of resolve_database_path resolved
load-shop = refl

load-Ready_example : Ready shop
load-Ready_example = load-Ready viper getenv " Shop" shop load-shop

new_logger-load_example :
    new_logger getenv (λ dir. true) (app_config shop) none ≡ dev_logger level_info false
unfolding parse_level
new_logger-load_example = new_logger-load viper getenv " Shop" shop (λ dir. true) load-shop refl

abbrev rotator : Rotator
rotator = record {
  filename = "storage/logs/shop.log";
  max_size = pos 20;
  max_backups = pos 10;
  max_age = pos 28;
  compress = true;
}

abbrev shop_logs : LogSettings
shop_logs = record {
  level = "error";
  directory = "storage/logs";
  max_size_mb = pos 20;
  max_backups = pos 10;
  max_age_days = pos 0;
  app_name = "shop";
}

new_prod_logger_bounds_example :
    (pos 0 <ℤ rotator.max_size) × (pos 0 <ℤ rotator.max_backups) × (pos 0 <ℤ rotator.max_age)
unfolding new_prod_logger join_path
new_prod_logger_bounds_example =
    new_prod_logger_bounds (λ dir. true) level_error shop_logs false rotator refl

abbrev handler : ColorHandler
handler = record { handler = []; level = level_info }

abbrev line : LogRecord
line = record {
  level = level_error;
  time_text = "10:00:00";
  level_text = "ERROR";
  message = "no";
  attrs = [];
}
