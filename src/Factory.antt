-- ===== src/Factory.antt =====
-- factory.go, inertia_factory.go, application.go, migrations.go: how an application is put together.
-- What the environment holds is an argument. Mounting routes and the init callback are functions on
-- the server; there is one logger, one database manager and one session manager, with number 0.
pub mod SsrApp
pub mod InertiaApp
pub mod Migrations
pub mod Wiring
pub mod InertiaWiring
pub mod CrossOrigin
mod Tests
use Prim.Native.Char.{code}
use Prim.Native.String as Str
use cartridge.Prelude.{
  ℕ, suc, ◌+◌, ◌*◌, ◌/◌, ◌%◌, pred, String, Bool, true, false, not, ◌&&◌, Option, none, some, List,
  [], ◌∷◌, ◌++◌, map, ◌⊎◌, inl, inr, ◌==◌, if◌then◌else◌, concat, ltb, string_comparable,
}
use cartridge.Prelude.Int.{ℤ, pos, negsuc}
use cartridge.Config.{Config, LoadError, Unmarshal, Loaded, is_production, is_development}
use cartridge.Config.Getters.{get_max_open_conns, get_max_idle_conns, get_public_directory}
use cartridge.Server.{
  ServerConfig, Server, Runtime, Missing, new_server, default_server_config, set_session,
  set_catch_all_redirect,
}
use cartridge.Session.{SessionManager, new_session_manager}
use cartridge.Sqlite.Manager.{SqliteConfig, SqliteManager, new_sqlite_manager}

-- What the environment holds: what viper reads, environment variables, whether directories can be
-- made, and the public files on disk.
pub record World : Type 0 where
  pub unmarshal : Unmarshal
  pub getenv : String → String
  pub mkdir : String → Bool
  pub on_disk : Option (List (String × Bool))

pub record JobGroup : Type 0 where
  pub interval : ℤ
  pub processors : List ℕ

-- A worker of the program's own, or the dispatcher of a group of processors.
pub data Worker : Type 0 where
  custom : ℕ → Worker
  dispatcher : ℤ → List ℕ → Worker

abbrev pub Hook : Type 0
Hook = Server → Server

abbrev pub run_hook : Option Hook → Server → Server
run_hook none s = s
run_hook (some f) s = f s

pub data FactoryError : Type 0 where
  config_failed : LoadError → FactoryError
  config_required not_factory_config : FactoryError
  server_failed application_failed : Missing → FactoryError

-- The dispatchers of the groups, in order.
unfoldable pub dispatchers : List JobGroup → List Worker
dispatchers [] = []
dispatchers (g ∷ gs) = dispatcher g.interval g.processors ∷ dispatchers gs

-- []byte(s): the characters in UTF-8.
unfoldable pub bytes_of : String → List ℕ
bytes_of Str.[] = []
bytes_of (Str.◌∷◌ c s) =
    let n = code c in
    let rest = bytes_of s in
    if ltb n 128
    then n ∷ rest
    else if ltb n 2048
    then (192 + n / 64) ∷ (128 + n % 64) ∷ rest
    else if ltb n 65536
    then (224 + n / 4096) ∷ (128 + n / 64 % 64) ∷ (128 + n % 64) ∷ rest
    else (240 + n / 262144) ∷ (128 + n / 4096 % 64) ∷ (128 + n / 64 % 64) ∷ (128 + n % 64) ∷ rest

-- time.Duration(n) * time.Second
abbrev pub as_seconds : ℤ → ℤ
as_seconds (pos n) = pos (n * 1_000_000_000)
as_seconds (negsuc n) = negsuc (pred (suc n * 1_000_000_000))

abbrev pub sqlite_config : Config → SqliteConfig
sqlite_config c = record {
  path = c.database_path;
  max_open_conns = get_max_open_conns c;
  max_idle_conns = get_max_idle_conns c;
  conn_max_lifetime = pos 0;
  busy_timeout = pos 0;
  enable_wal = false;
  tx_immediate = false;
}

abbrev pub runtime_of : Config → Runtime
runtime_of c = record { port = c.port; public_directory = get_public_directory c }

-- The session manager of both factories, where there is a login path.
unfoldable pub session_for : Config → String → Option SessionManager
session_for c path =
    if path == ""
    then none
    else some (
        new_session_manager (record {
          cookie_name = concat (c.app_name ∷ "_session" ∷ []);
          secret = bytes_of c.session_secret;
          ttl = as_seconds c.session_timeout;
          secure = is_production c;
          login_path = path;
        }))

abbrev pub session_number : Option SessionManager → Option ℕ
session_number none = none
session_number (some sm) = some 0

abbrev pub attach : Option SessionManager → Server → Server
attach none s = s
attach (some sm) s = set_session (some 0) s

pub record ApplicationOptions : Type 0 where
  pub config : Option Runtime
  pub logger : Option ℕ
  pub db_manager : Option ℕ
  pub server : Option Server
  pub server_config : Option ServerConfig
  pub route_mount : Option Hook
  pub catch_all_redirect : String
  pub background_workers : List Worker

-- The fields of Application that NewApplication chooses.
pub record Wired : Type 0 where
  pub server : Server
  pub workers : List Worker

unfoldable pub redirecting : String → Server → Server
redirecting path s = if path == "" then s else set_catch_all_redirect path s

abbrev or_default_config : Option ServerConfig → ServerConfig
or_default_config none = default_server_config
or_default_config (some cfg) = cfg

-- The server that is given, or a new one with the options' dependencies.
unfoldable pub server_for :
    Option (List (String × Bool)) → ApplicationOptions → Option Server → Missing ⊎ Server
server_for on_disk o (some s) = inr s
server_for on_disk o none =
    new_server
      (some (record (or_default_config o.server_config) {
        config = o.config;
        logger = o.logger;
        db_manager = o.db_manager;
      }))
      on_disk

abbrev pub wired : ApplicationOptions → Missing ⊎ Server → Missing ⊎ Wired
wired o (inl e) = inl e
wired o (inr s) = inr (record {
  server = run_hook o.route_mount (redirecting o.catch_all_redirect s);
  workers = o.background_workers;
})

unfoldable pub new_application :
    Option (List (String × Bool)) → ApplicationOptions → Missing ⊎ Wired
unfolding server_for redirecting
new_application on_disk o = wired o (server_for on_disk o o.server)
