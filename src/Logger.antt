-- ===== src/Logger.antt =====
-- logger.go: the logger of an application by its environment, and the coloured handler. os.Getenv
-- and os.MkdirAll are arguments. Package slog's JSON and text handlers and the rotation of files by
-- lumberjack are not modelled: a logger is what they are set up with.
pub mod Levels
mod Tests
use cartridge.Prelude.{
  String, Bool, true, false, not, ◌&&◌, ◌||◌, Option, none, some, List, [], ◌∷◌, ◌++◌, ◌==◌,
  if◌then◌else◌, concat, to_lower, string_comparable,
}
use cartridge.Prelude.Int.{ℤ, pos, negsuc, ltb_ℤ, leb_ℤ, pos_part, neg_part}
use cartridge.Config.{Config, is_development, is_test, join_path}
use cartridge.Config.Getters.{LogSettings, log_settings}

abbrev pub Level : Type 0
Level = ℤ

abbrev pub level_debug : Level
level_debug = negsuc 3

abbrev pub level_info : Level
level_info = pos 0

abbrev pub level_warn : Level
level_warn = pos 4

abbrev pub level_error : Level
level_error = pos 8

-- The interface Config, as far as the logger uses it, and LogConfigProvider where it is implemented.
pub record AppConfig : Type 0 where
  pub development : Bool
  pub test : Bool
  pub provider : Option LogSettings

-- The configuration of package config.
abbrev pub app_config : Config → AppConfig
app_config c = record {
  development = is_development c;
  test = is_test c;
  provider = some (log_settings c);
}

pub record Rotator : Type 0 where
  pub filename : String
  pub max_size : ℤ
  pub max_backups : ℤ
  pub max_age : ℤ
  pub compress : Bool

-- The coloured handler on stdout; JSON on stdout; JSON on stdout and in a file. The Boolean is
-- AddSource.
pub data Logger : Type 0 where
  dev_logger : Level → Bool → Logger
  stdout_logger : Level → Logger
  file_logger : Level → Bool → Rotator → Logger

unfoldable pub parse_level : String → Level
unfolding to_lower
parse_level s =
    let l = to_lower s in
    if l == "debug"
    then level_debug
    else if l == "info"
    then level_info
    else if l == "warn" || l == "warning"
    then level_warn
    else if l == "error"
    then level_error
    else level_info

abbrev pub default_level : AppConfig → String
default_level cfg = if cfg.development then "debug" else if cfg.test then "info" else "error"

unfoldable pub resolve_log_level : (String → String) → AppConfig → String → Level
resolve_log_level getenv cfg config_level =
    let env_level = getenv "LOG_LEVEL" in
    let level = if env_level == "" then config_level else env_level in
    parse_level (if level == "" then default_level cfg else level)

abbrev pub is_debug : Level → Bool
is_debug l = leb_ℤ l level_debug && leb_ℤ level_debug l

abbrev or_string : String → String → String
or_string s fallback = if s == "" then fallback else s

abbrev pub or_positive : ℤ → ℤ → ℤ
or_positive n fallback = if leb_ℤ n (pos 0) then fallback else n

unfoldable pub new_prod_logger : (String → Bool) → Level → LogSettings → Logger
new_prod_logger mkdir level cfg =
    let dir = or_string cfg.directory "logs" in
    if mkdir dir
    then file_logger level (is_debug level) (record {
      filename = join_path dir (concat (or_string cfg.app_name "app" ∷ ".log" ∷ []));
      max_size = or_positive cfg.max_size_mb (pos 100);
      max_backups = or_positive cfg.max_backups (pos 3);
      max_age = or_positive cfg.max_age_days (pos 28);
      compress = true;
    })
    else stdout_logger level

unfoldable pub new_dev_logger : Level → Logger
new_dev_logger level = dev_logger level (is_debug level)

abbrev zero_settings : LogSettings
zero_settings = record {
  level = "";
  directory = "";
  max_size_mb = pos 0;
  max_backups = pos 0;
  max_age_days = pos 0;
  app_name = "";
}

-- The settings given, else those of the configuration, else zero values.
abbrev pub effective_settings : AppConfig → Option LogSettings → LogSettings
effective_settings cfg (some given) = given
effective_settings cfg none = elim cfg.provider [ some own ↦ own | none ↦ zero_settings ]

unfoldable pub new_logger :
    (String → String) → (String → Bool) → AppConfig → Option LogSettings → Logger
unfolding new_prod_logger new_dev_logger resolve_log_level
new_logger getenv mkdir cfg given =
    let settings = effective_settings cfg given in
    let level = resolve_log_level getenv cfg settings.level in
    if cfg.development || cfg.test
    then new_dev_logger level
    else new_prod_logger mkdir level settings

-- What slog.Handler was wrapped with: attributes, or a group.
pub data Wrap : Type 0 where
  with : List (String × String) → Wrap
  group : String → Wrap

-- The handler inside is what newColorHandler made it of, and what it has been wrapped with since.
pub record ColorHandler : Type 0 where
  pub handler : List Wrap
  pub level : Level

-- What the handler reads of a slog.Record: its level, and its time, level and attributes as text.
pub record LogRecord : Type 0 where
  pub level : Level
  pub time_text : String
  pub level_text : String
  pub message : String
  pub attrs : List (String × String)

abbrev pub color_reset : String
color_reset = "\u{1b}[0m"

abbrev pub color_gray : String
color_gray = "\u{1b}[90m"

abbrev same_level : Level → Level → Bool
same_level a b = leb_ℤ a b && leb_ℤ b a

unfoldable pub level_color : Level → String
level_color l =
    if same_level l level_debug
    then color_gray
    else if same_level l level_info
    then "\u{1b}[34m"
    else if same_level l level_warn
    then "\u{1b}[33m"
    else if same_level l level_error
    then "\u{1b}[31m"
    else ""

unfoldable pub attr_text : List (String × String) → String
attr_text [] = ""
attr_text ((key, value) ∷ attrs) =
    concat (" " ∷ color_gray ∷ key ∷ "=" ∷ color_reset ∷ value ∷ attr_text attrs ∷ [])

-- What Handle writes.
unfoldable pub handle : ColorHandler → LogRecord → String
unfolding level_color attr_text
handle h r = concat (
    color_gray
    ∷ r.time_text
    ∷ color_reset
    ∷ " "
    ∷ level_color r.level
    ∷ r.level_text
    ∷ color_reset
    ∷ " "
    ∷ r.message
    ∷ attr_text r.attrs
    ∷ "\n"
    ∷ [])

unfoldable pub enabled : ColorHandler → Level → Bool
enabled h level = leb_ℤ h.level level

unfoldable pub with_attrs : List (String × String) → ColorHandler → ColorHandler
with_attrs attrs h = record h { handler = h.handler ++ with attrs ∷ [] }

unfoldable pub with_group : String → ColorHandler → ColorHandler
with_group name h = record h { handler = h.handler ++ group name ∷ [] }
