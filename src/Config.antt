-- ===== src/Config.antt =====
-- config/config.go: the configuration of an application. The package viper is `unmarshal`, which
-- makes a configuration of the defaults, the bindings of environment variables and what they and a
-- .env file hold; os.Getenv is an argument. Logging is left out.
mod Paths
pub mod Loads
pub mod Databases
pub mod Getters
use cartridge.Prelude.{
  String, Bool, true, false, not, ◌&&◌, ◌||◌, Option, none, some, List, [], ◌∷◌, ◌++◌, ◌==◌,
  if◌then◌else◌, concat, join, to_lower, to_upper, trim_space, trim_suffix, string_comparable, ◌⊎◌,
  inl, inr,
}
use cartridge.Prelude.Int.{ℤ, pos, ltb_ℤ}
unfoldable pub use Paths.*

abbrev pub development : String
development = "development"

abbrev pub production : String
production = "production"

abbrev pub test : String
test = "test"

pub record Config : Type 0 where
  pub app_name : String
  pub environment : String
  pub port : String
  pub debug : Bool
  pub log_level : String
  pub logs_directory : String
  pub logs_max_size_mb : ℤ
  pub logs_max_backups : ℤ
  pub logs_max_age_days : ℤ
  pub session_secret : String
  pub session_timeout : ℤ
  pub data_directory : String
  pub database_filename : String
  pub database_path : String
  pub max_open_conns : ℤ
  pub max_idle_conns : ℤ
  pub env_prefix : String

pub data Value : Type 0 where
  text : String → Value
  flag : Bool → Value
  number : ℤ → Value

-- What viper is told: the defaults by key, and the environment variables that are bound to keys.
pub record Settings : Type 0 where
  pub prefix : String
  pub defaults : List (String × Value)
  pub bindings : List (String × String)

-- The messages of validate, by what they say and of which values.
pub data Problem : Type 0 where
  secret_required : String → Problem
  invalid_environment : String → String → Problem

pub data LoadError : Type 0 where
  unmarshal_failed : String → LoadError
  invalid : List Problem → LoadError

pub data Loaded : Type 0 where
  loaded : Config → Loaded
  load_failed : LoadError → Loaded

unfoldable pub set_defaults : String → List (String × Value)
set_defaults app_name =
    ("appname", text app_name)
    ∷ ("environment", text production)
    ∷ ("port", text "8080")
    ∷ ("debug", flag false)
    ∷ ("loglevel", text "error")
    ∷ ("logsdirectory", text "storage/logs")
    ∷ ("logsmaxsizeinmb", number (pos 20))
    ∷ ("logsmaxbackups", number (pos 10))
    ∷ ("logsmaxageindays", number (pos 30))
    ∷ ("sessiontimeoutseconds", number (pos 604800))
    ∷ ("datadirectory", text "storage")
    ∷ ("databasefilename", text (concat (app_name ∷ ".db" ∷ [])))
    ∷ ("databasemaxopenconns", number (pos 0))
    ∷ ("databasemaxidleconns", number (pos 0))
    ∷ []

unfoldable pub bind_env_vars : String → List (String × String)
bind_env_vars prefix =
    ("environment", concat (prefix ∷ "_ENV" ∷ []))
    ∷ ("port", concat (prefix ∷ "_PORT" ∷ []))
    ∷ ("sessionsecret", concat (prefix ∷ "_SESSION_SECRET" ∷ []))
    ∷ ("loglevel", concat (prefix ∷ "_LOG_LEVEL" ∷ []))
    ∷ ("datadirectory", concat (prefix ∷ "_DATA_DIR" ∷ []))
    ∷ ("debug", concat (prefix ∷ "_DEBUG" ∷ []))
    ∷ []

abbrev pub is_development : Config → Bool
is_development c = c.environment == development

abbrev pub is_production : Config → Bool
is_production c = c.environment == production

abbrev pub is_test : Config → Bool
is_test c = c.environment == test

abbrev pub known : String → Bool
known env = env == development || env == production || env == test

abbrev pub has_default_level : Config → Bool
has_default_level c = c.log_level == "" || c.log_level == "error"

abbrev pub raise_level : Bool → Bool → Config → Config
raise_level true true c = record c { log_level = "info" }
raise_level true false c = c
raise_level false local c = c

-- The part of validate on the log level.
unfoldable pub adjust_log_level : Config → Config
adjust_log_level c = raise_level (has_default_level c) (is_development c || is_test c) c

unfoldable pub private_key_secret : (String → String) → Config → Config
private_key_secret getenv c =
    if c.session_secret == "" then record c { session_secret = getenv "PRIVATE_KEY" } else c

abbrev pub default_secret : String
default_secret = "dev-secret-do-not-use-in-production-f8e3a9c2d1b7e6a4"

-- The tests are of production and of an empty secret.
abbrev pub require_when : Bool → Bool → Config → Config × List Problem
require_when true true c = (c, secret_required c.env_prefix ∷ [])
require_when true false c = (c, [])
require_when false true c = (record c { session_secret = default_secret }, [])
require_when false false c = (c, [])

unfoldable pub require_secret : Config → Config × List Problem
require_secret c = require_when (is_production c) (c.session_secret == "") c

abbrev pub add_unless : Bool → Problem → List Problem → List Problem
add_unless true p ps = ps
add_unless false p ps = ps ++ p ∷ []

-- The configuration as validate leaves it, and the problems that it returns.
unfoldable pub validate : (String → String) → Config → Config × List Problem
unfolding adjust_log_level private_key_secret require_secret
validate getenv c =
    let (c', problems) = require_secret (private_key_secret getenv (adjust_log_level c)) in
    let unknown = invalid_environment c'.env_prefix c'.environment in
    (c', add_unless (known c'.environment) unknown problems)

-- fmt.Sprintf("%s.%s%s", base, c.Environment, ext)
unfoldable pub environment_filename : String → String → String
unfolding ext trim_suffix
environment_filename filename environment =
    let e = ext filename in
    concat (trim_suffix filename e ∷ "." ∷ environment ∷ (if e == "" then ".db" else e) ∷ [])

unfoldable pub resolve_database_path : Config → String
unfolding environment_filename is_abs join_path
resolve_database_path c =
    let given =
      if c.database_filename == "" then concat (c.app_name ∷ ".db" ∷ []) else c.database_filename in
    let filename = environment_filename given c.environment in
    if is_abs filename then filename else join_path c.data_directory filename

abbrev filled : String → List String
filled dir = if dir == "" then [] else dir ∷ []

-- The directories that os.MkdirAll is called on; its failures are only logged.
unfoldable pub ensure_directories : Config → List String
ensure_directories c = filled c.data_directory ++ filled c.logs_directory

abbrev checked : Config × List Problem → Loaded
checked (c, []) = loaded c
checked (c, p ∷ ps) = load_failed (invalid (p ∷ ps))

unfoldable pub normalized : String → String
unfolding to_lower trim_space
normalized name = let lower = to_lower (trim_space name) in if lower == "" then "app" else lower

unfoldable pub settings_of : String → Settings
unfolding normalized set_defaults bind_env_vars to_upper
settings_of name =
    let app_name = normalized name in
    record {
      prefix = to_upper app_name;
      defaults = set_defaults app_name;
      bindings = bind_env_vars (to_upper app_name);
    }

-- What viper makes of the settings has no path and no prefix yet.
abbrev pub Unmarshal : Type 0
Unmarshal = Settings → Config ⊎ String

-- What viper read, with the prefix and the path of the database.
unfoldable pub resolved : String → Config → Config
resolved prefix read =
    let c = record read { env_prefix = prefix } in
    record c { database_path = resolve_database_path c }

-- Load from v.Unmarshal on: the result, and the directories that ensureDirectories asked for.
unfoldable pub finish_load : (String → String) → String → Config ⊎ String → Loaded × List String
finish_load getenv prefix (inr message) = (load_failed (unmarshal_failed message), [])
finish_load getenv prefix (inl read) =
    let c = resolved prefix read in (checked (validate getenv c), ensure_directories c)

unfoldable pub load : Unmarshal → (String → String) → String → Loaded × List String
unfolding finish_load
load unmarshal getenv name =
    let settings = settings_of name in finish_load getenv settings.prefix (unmarshal settings)
