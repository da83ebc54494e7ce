-- ===== src/Factory/SsrApp.antt =====
-- factory.go: the options of NewSSRApp in the order of the call, and the application that they make.
use cartridge.Prelude.{
  ℕ, String, Bool, false, not, ◌&&◌, Option, none, some, List, [], ◌∷◌, ◌++◌, ◌⊎◌, inl, inr,
}
use cartridge.Prelude.Int.{ℤ}
use cartridge.Config.{Config, Loaded, loaded, load_failed, load, is_development}
use cartridge.Logger.{Logger, new_logger, app_config}
use cartridge.Server.{ServerConfig, Server, Missing, new_server, default_server_config}
use cartridge.Server.Errors.{ErrorHandler, default_error_handler}
use cartridge.Session.{SessionManager}
use cartridge.Sqlite.Manager.{SqliteManager, new_sqlite_manager}
use cartridge.Factory.{
  World, JobGroup, Worker, Hook, run_hook, FactoryError, config_failed, server_failed,
  application_failed, dispatchers, sqlite_config, runtime_of, session_for, attach,
  ApplicationOptions, Wired, new_application,
}

-- Templates and static files are there or not; template functions are numbers.
pub record SsrConfig : Type 0 where
  pub cfg : Option Config
  pub templates_fs : Bool
  pub static_fs : Bool
  pub template_funcs : Option ℕ
  pub error_handler : Option ErrorHandler
  pub init : Option Hook
  pub routes : Option Hook
  pub job_groups : List JobGroup
  pub session_path : String

pub data AppOption : Type 0 where
  with_config : Config → AppOption
  with_assets : Bool → Bool → AppOption
  with_template_funcs : ℕ → AppOption
  with_error_handler : ErrorHandler → AppOption
  with_init : Hook → AppOption
  with_routes : Hook → AppOption
  with_jobs : ℤ → List ℕ → AppOption
  with_session : String → AppOption

abbrev pub no_options : SsrConfig
no_options = record {
  cfg = none;
  templates_fs = false;
  static_fs = false;
  template_funcs = none;
  error_handler = none;
  init = none;
  routes = none;
  job_groups = [];
  session_path = "";
}

unfoldable pub apply_option : AppOption → SsrConfig → SsrConfig
apply_option (with_config c) o = record o { cfg = some c }
apply_option (with_assets templates static) o = record o {
  templates_fs = templates;
  static_fs = static;
}
apply_option (with_template_funcs funcs) o = record o { template_funcs = some funcs }
apply_option (with_error_handler handler) o = record o { error_handler = some handler }
apply_option (with_init f) o = record o { init = some f }
apply_option (with_routes f) o = record o { routes = some f }
apply_option (with_jobs interval processors) o = record o {
  job_groups = o.job_groups ++ record { interval = interval; processors = processors } ∷ [];
}
apply_option (with_session path) o = record o { session_path = path }

unfoldable pub apply_options_to : List AppOption → SsrConfig → SsrConfig
unfolding apply_option
apply_options_to [] o = o
apply_options_to (opt ∷ opts) o = apply_options_to opts (apply_option opt o)

-- The engine of createViewsEngine: whether it reads the embedded templates, whether it reads them
-- again for each page, and the functions that were added.
pub record Views : Type 0 where
  pub embedded : Bool
  pub reload : Bool
  pub funcs : Option ℕ

unfoldable pub create_views_engine : Config → Bool → Option ℕ → Views
create_views_engine c templates funcs = record {
  embedded = not (is_development c) && templates;
  reload = is_development c;
  funcs = funcs;
}

-- A handler that was given, or DefaultErrorHandler with its isDev.
abbrev handler_or : Bool → Option ErrorHandler → ErrorHandler
handler_or dev none = default_error_handler dev
handler_or dev (some handler) = handler

pub record SsrApp : Type 0 where
  pub config : Config
  pub logger : Logger
  pub db_manager : SqliteManager
  pub server : Server
  pub session : Option SessionManager
  pub views : Views
  pub workers : List Worker

unfoldable pub server_config_of : Config → SsrConfig → ServerConfig
server_config_of c o = record default_server_config {
  config = some (runtime_of c);
  logger = some 0;
  db_manager = some 0;
  has_static_fs = not (is_development c) && o.static_fs;
  error_handler = some (handler_or (is_development c) o.error_handler);
}

-- The configuration of WithConfig, else the one that is loaded.
unfoldable pub config_of : World → String → Option Config → Loaded
config_of w name (some c) = loaded c
config_of w name none = (load w.unmarshal w.getenv name).0

abbrev pub application_options : Server → List Worker → Config → ApplicationOptions
application_options s workers c = record {
  config = some (runtime_of c);
  logger = some 0;
  db_manager = some 0;
  server = some s;
  server_config = none;
  route_mount = none;
  catch_all_redirect = "";
  background_workers = workers;
}

abbrev pub app_of : World → Config → SsrConfig → Missing ⊎ Wired → FactoryError ⊎ SsrApp
app_of w c o (inl e) = inl (application_failed e)
app_of w c o (inr a) = inr (record {
  config = c;
  logger = new_logger w.getenv w.mkdir (app_config c) none;
  db_manager = new_sqlite_manager (sqlite_config c);
  server = a.server;
  session = session_for c o.session_path;
  views = create_views_engine c o.templates_fs o.template_funcs;
  workers = a.workers;
})

-- The server with the session manager, then with the routes, then after the init callback.
unfoldable pub mounted : Config → SsrConfig → Server → Server
mounted c o s = run_hook o.init (run_hook o.routes (attach (session_for c o.session_path) s))

abbrev pub with_server : World → Config → SsrConfig → Missing ⊎ Server → FactoryError ⊎ SsrApp
with_server w c o (inl e) = inl (server_failed e)
with_server w c o (inr s) =
    app_of w c o
      (new_application w.on_disk (application_options (mounted c o s) (dispatchers o.job_groups) c))

abbrev pub with_loaded : World → SsrConfig → Loaded → FactoryError ⊎ SsrApp
with_loaded w o (load_failed e) = inl (config_failed e)
with_loaded w o (loaded c) = with_server w c o (new_server (some (server_config_of c o)) w.on_disk)

unfoldable pub new_ssr_app : World → String → List AppOption → FactoryError ⊎ SsrApp
unfolding apply_options_to config_of server_config_of mounted
new_ssr_app w name opts =
    let o = apply_options_to opts no_options in with_loaded w o (config_of w name o.cfg)
