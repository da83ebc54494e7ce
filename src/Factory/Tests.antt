-- ===== src/Factory/Tests.antt =====
-- Applications at concrete inputs: "shop" in production, with jobs, a login and a route.
use cartridge.Prelude.{
  ◌≡◌, refl, true, false, none, some, List, [], ◌∷◌, ◌++◌, inl, inr, ◌==◌, string_comparable,
  if◌then◌else◌,
}
use cartridge.Prelude.Int.{pos}
use cartridge.Config.{
  Config, is_production, load, validate, settings_of, resolve_database_path, resolved,
}
use cartridge.Inertia.Manifest.{Assets}
use cartridge.Middleware.Chain.{Request, Response, json, next, Handler, serve}
use cartridge.Middleware.SecFetch.{default_methods}
use cartridge.Server.{new_server, redirects_all, route, Registration}
use cartridge.Server.Routes.{CorsConfig, opts_out, config_handlers, register_route}
use cartridge.Session.{SessionManager}
use cartridge.Factory.{World, Hook, new_application, session_for}
use cartridge.Factory.SsrApp.{
  SsrApp, AppOption, with_session, with_jobs, with_routes, new_ssr_app, apply_options_to,
}
use cartridge.Factory.InertiaApp.{
  InertiaOption, InertiaApp, new_inertia_app, inertia_with_routes, factory_config,
  inertia_with_config, inertia_with_worker, inertia_with_jobs, inertia_with_cross_origin_api,
  apply_inertia_options,
}
use cartridge.Factory.Wiring.{new_ssr_app_session, has_bytes}
use cartridge.Factory.CrossOrigin.{new_inertia_app_cross_origin}

abbrev read : Config
read = record {
  app_name = "shop";
  environment = "production";
  port = "8080";
  debug = false;
  log_level = "error";
  logs_directory = "storage/logs";
  logs_max_size_mb = pos 20;
  logs_max_backups = pos 10;
  logs_max_age_days = pos 30;
  session_secret = "key";
  session_timeout = pos 604800;
  data_directory = "storage";
  database_filename = "shop.db";
  database_path = "";
  max_open_conns = pos 0;
  max_idle_conns = pos 0;
  env_prefix = "";
}

abbrev world : World
world = record {
  unmarshal = λ settings. inl read;
  getenv = λ name. "";
  mkdir = λ dir. true;
  on_disk = none;
}

abbrev mount : Hook
mount s = record s { app = s.app ++ redirects_all "/home" ∷ [] }

abbrev options : List AppOption
options = with_jobs (pos 60) (1 ∷ 2 ∷ []) ∷ with_session "/login" ∷ with_routes mount ∷ []

-- The application that is made, with its session manager.
made :
    (app : SsrApp) × (sm : SessionManager) × (new_ssr_app world "shop" options ≡ inr app)
    × (app.session ≡ some sm)
unfolding new_ssr_app new_server load validate settings_of resolve_database_path resolved
    new_application session_for
made = (_, _, refl, refl)

new_ssr_app_session_example :
    (has_bytes made.1.secret ≡ true) × (made.1.secure ≡ is_production made.0.config)
unfolding apply_options_to
new_ssr_app_session_example =
    new_ssr_app_session world "shop" options made.0 made.1 refl made.2 made.3

abbrev inertia_options : List InertiaOption
inertia_options =
    inertia_with_jobs (pos 60) (1 ∷ [])
    ∷ inertia_with_config (factory_config read)
    ∷ inertia_with_worker 7
    ∷ inertia_with_cross_origin_api
    ∷ []

abbrev assets : Assets
assets = record {
  loaded = false;
  js_file = "";
  css_file = "";
  dev_mode = false;
  page_title = "Fusionaly";
  manifest_data = "";
}

abbrev cross_site_post : Request
cross_site_post = record {
  method = "POST";
  header = λ h. if h == "Sec-Fetch-Site" then "cross-site" else "";
  accepts_json = true;
}

abbrev cors_stub : CorsConfig → Handler
cors_stub config r = next

abbrev no_limit : Handler
no_limit r = next

abbrev served : Request → Response
served r = json 200 "" "served"

-- The option after the routes.
abbrev api_options : List InertiaOption
api_options =
    inertia_with_routes (register_route cors_stub no_limit "POST" "/api" served none)
    ∷ inertia_options

new_inertia_app_cross_origin_example :
    (app : InertiaApp) × (before : List Registration) × (hs : List Handler) × (new_inertia_app world
        assets api_options
      ≡ inr app)
    × (app.server.app ≡ before ++ route "POST" "/api" hs served ∷ [])
    × (serve hs served cross_site_post
        ≡ serve (config_handlers cors_stub no_limit none) served cross_site_post)
unfolding apply_inertia_options default_methods opts_out
new_inertia_app_cross_origin_example =
    new_inertia_app_cross_origin cors_stub no_limit world assets api_options read "POST" "/api"
      served none cross_site_post refl refl refl refl refl
