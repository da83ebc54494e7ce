-- ===== src/Factory/InertiaApp.antt =====
-- inertia_factory.go: the options of NewInertiaApp in the order of the call, and the application that
-- they make.
use cartridge.Prelude.{
  ℕ, String, Bool, true, false, not, ◌&&◌, Option, none, some, List, [], ◌∷◌, ◌++◌, ◌⊎◌, inl, inr,
  ◌==◌, if◌then◌else◌, string_comparable,
}
use cartridge.Prelude.Int.{ℤ}
use cartridge.Config.{Config, is_development}
use cartridge.Logger.{Logger, new_logger, app_config}
use cartridge.Inertia.Manifest.{Assets, set_dev_mode, set_title}
use cartridge.Server.{ServerConfig, Server, Missing, new_server, default_server_config}
use cartridge.Session.{SessionManager}
use cartridge.Sqlite.Manager.{SqliteManager, new_sqlite_manager}
use cartridge.Factory.{
  World, JobGroup, Worker, custom, Hook, run_hook, FactoryError, config_required,
  not_factory_config, server_failed, application_failed, dispatchers, sqlite_config, runtime_of,
  session_for, attach, redirecting, Wired, new_application,
}
use cartridge.Factory.SsrApp.{application_options}

-- A configuration that implements FactoryConfig, here that of package config, or one that does not.
pub data GivenConfig : Type 0 where
  factory_config : Config → GivenConfig
  plain_config : Config → GivenConfig

pub record InertiaConfig : Type 0 where
  pub cfg : Option GivenConfig
  pub static_fs : Bool
  pub custom_db_manager : Option ℕ
  pub routes : Option Hook
  pub job_groups : List JobGroup
  pub workers : List Worker
  pub session_path : String
  pub cross_origin_api : Bool
  pub page_title : String
  pub catch_all_redirect : String

pub data InertiaOption : Type 0 where
  inertia_with_config : GivenConfig → InertiaOption
  inertia_with_static_assets : Bool → InertiaOption
  inertia_with_db_manager : ℕ → InertiaOption
  inertia_with_routes : Hook → InertiaOption
  inertia_with_jobs : ℤ → List ℕ → InertiaOption
  inertia_with_worker : ℕ → InertiaOption
  inertia_with_session : String → InertiaOption
  inertia_with_cross_origin_api : InertiaOption
  inertia_with_page_title : String → InertiaOption
  inertia_with_catch_all_redirect : String → InertiaOption

abbrev pub no_inertia_options : InertiaConfig
no_inertia_options = record {
  cfg = none;
  static_fs = false;
  custom_db_manager = none;
  routes = none;
  job_groups = [];
  workers = [];
  session_path = "";
  cross_origin_api = false;
  page_title = "";
  catch_all_redirect = "";
}

unfoldable pub apply_inertia_option : InertiaOption → InertiaConfig → InertiaConfig
apply_inertia_option (inertia_with_config c) o = record o { cfg = some c }
apply_inertia_option (inertia_with_static_assets there) o = record o { static_fs = there }
apply_inertia_option (inertia_with_db_manager m) o = record o { custom_db_manager = some m }
apply_inertia_option (inertia_with_routes f) o = record o { routes = some f }
apply_inertia_option (inertia_with_jobs interval processors) o = record o {
  job_groups = o.job_groups ++ record { interval = interval; processors = processors } ∷ [];
}
apply_inertia_option (inertia_with_worker worker) o = record o {
  workers = o.workers ++ custom worker ∷ [];
}
apply_inertia_option (inertia_with_session path) o = record o { session_path = path }
apply_inertia_option inertia_with_cross_origin_api o = record o { cross_origin_api = true }
apply_inertia_option (inertia_with_page_title title) o = record o { page_title = title }
apply_inertia_option (inertia_with_catch_all_redirect path) o = record o {
  catch_all_redirect = path;
}

unfoldable pub apply_inertia_options : List InertiaOption → InertiaConfig → InertiaConfig
unfolding apply_inertia_option
apply_inertia_options [] o = o
apply_inertia_options (opt ∷ opts) o = apply_inertia_options opts (apply_inertia_option opt o)

-- The package's variables after the factory has set them, and the application.
pub record InertiaApp : Type 0 where
  pub assets : Assets
  pub logger : Logger
  pub db_manager : Option SqliteManager
  pub server : Server
  pub session : Option SessionManager
  pub workers : List Worker

unfoldable pub inertia_server_config : Config → InertiaConfig → ServerConfig
inertia_server_config c o = record default_server_config {
  config = some (runtime_of c);
  logger = some 0;
  db_manager = elim o.custom_db_manager [ none ↦ some 0 | some m ↦ some m ];
  has_static_fs = not (is_development c) && o.static_fs;
  sec_fetch_site_allowed_values =
      if o.cross_origin_api then "cross-site" ∷ "same-site" ∷ "same-origin" ∷ [] else [];
}

unfoldable pub set_package : Config → InertiaConfig → Assets → Assets
unfolding set_dev_mode set_title
set_package c o a =
    let a' = if is_development c then set_dev_mode true a else a in
    if o.page_title == "" then a' else set_title o.page_title a'

-- The server with the session manager, the routes and the redirect.
unfoldable pub inertia_mounted : Config → InertiaConfig → Server → Server
unfolding redirecting
inertia_mounted c o s =
    redirecting o.catch_all_redirect (run_hook o.routes (attach (session_for c o.session_path) s))

abbrev pub inertia_app_of :
    World → Assets → Config → InertiaConfig → Missing ⊎ Wired → FactoryError ⊎ InertiaApp
inertia_app_of w assets c o (inl e) = inl (application_failed e)
inertia_app_of w assets c o (inr a) = inr (record {
  assets = set_package c o assets;
  logger = new_logger w.getenv w.mkdir (app_config c) none;
  db_manager = elim o.custom_db_manager [
    | none ↦ some (new_sqlite_manager (sqlite_config c))
    | some m ↦ none
  ];
  server = a.server;
  session = session_for c o.session_path;
  workers = a.workers;
})

abbrev pub inertia_with_server :
    World → Assets → Config → InertiaConfig → Missing ⊎ Server → FactoryError ⊎ InertiaApp
inertia_with_server w assets c o (inl e) = inl (server_failed e)
inertia_with_server w assets c o (inr s) = inertia_app_of w assets c o (
    new_application w.on_disk
      (application_options (inertia_mounted c o s) (o.workers ++ dispatchers o.job_groups) c))

abbrev pub inertia_with_cfg :
    World → Assets → InertiaConfig → Option GivenConfig → FactoryError ⊎ InertiaApp
inertia_with_cfg w assets o none = inl config_required
inertia_with_cfg w assets o (some (plain_config c)) = inl not_factory_config
inertia_with_cfg w assets o (some (factory_config c)) =
    inertia_with_server w assets c o (new_server (some (inertia_server_config c o)) w.on_disk)

unfoldable pub new_inertia_app : World → Assets → List InertiaOption → FactoryError ⊎ InertiaApp
unfolding apply_inertia_options inertia_server_config inertia_mounted
new_inertia_app w assets opts =
    let o = apply_inertia_options opts no_inertia_options in inertia_with_cfg w assets o o.cfg
