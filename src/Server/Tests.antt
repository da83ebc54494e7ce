-- ===== src/Server/Tests.antt =====
-- Servers and requests, and the theorems about them at concrete inputs.
use cartridge.Prelude.{
  ◌≡◌, ◌≢◌, ◌≤◌, append, ap, ◌⊎◌, inl, inr, arith, refl, String, true, false, none, some, [], ◌∷◌,
  ◌==◌, string_comparable, if◌then◌else◌,
}
use cartridge.Middleware.Chain.{Request, Response, json, Handler, answer, next, serve}
use cartridge.Middleware.SecFetch.{
  settings, default_allowed_values, default_methods, sec_fetch_site_middleware,
}
use cartridge.Server.{
  ServerConfig, Runtime, logger_field, fresh_server, new_server, default_server_config, start,
  set_catch_all_redirect, uses, request_id, recover, helmet, compress, request_logger,
  static_directory_at, redirects_all, use_if, setup_global_middleware, setup_static_assets,
  setup_public_files, public_files,
}
use cartridge.Server.Routes.{
  CorsConfig, RouteConfig, opts_out, sec_fetch_config, sec_fetch_handlers, cors_handlers,
  limit_handlers, config_handlers, route_handlers, register_route-refuses,
}
use cartridge.Server.Errors.{
  other, fiber_error, create_default_error_handler, default_error_handler, status_of, message_of,
  error_code_name,
}
use cartridge.Strconv.{format_uint}
use cartridge.Server.ErrorPage.{
  decimal, page_text, page_start, page_end, details_start, default_error_handler_page,
}
use cartridge.Server.Shutdown.{
  Shutdown, closing, selecting, returned, Run, Step, steps, expires, gives_up, begins, IsOver,
  shutdown_ends,
}
use cartridge.Server.Shutdown as Stopping

program : Unit {0}
unfolding new_server begins decimal format_uint default_server_config start set_catch_all_redirect
    use_if setup_global_middleware setup_static_assets setup_public_files public_files serve
    settings default_allowed_values default_methods sec_fetch_site_middleware opts_out
    sec_fetch_config sec_fetch_handlers cors_handlers limit_handlers config_handlers route_handlers
    create_default_error_handler default_error_handler status_of message_of error_code_name
program = tt

abbrev runtime : Runtime
runtime = record { port = "8080"; public_directory = "web/public" }

abbrev cfg : ServerConfig
cfg = record default_server_config { config = some runtime; logger = some 1; db_manager = some 2 }

no_logger : new_server (some record cfg { logger = none }) none ≡ inl logger_field
unfolding program
no_logger = refl

-- All the middleware in its order, the assets, and the catch-all after them.
starts : start (set_catch_all_redirect "/app" (fresh_server cfg none runtime)) runtime ≡ (
  uses request_id
      ∷ uses recover
      ∷ uses helmet
      ∷ uses compress
      ∷ uses request_logger
      ∷ static_directory_at "/assets" "web/public"
      ∷ redirects_all "/app"
      ∷ [],
  ":8080",
)
unfolding program
starts = refl

abbrev post_from : String → Request
post_from site = record {
  method = "POST";
  header = λ h. if h == "Sec-Fetch-Site" then site else "";
  accepts_json = true;
}

abbrev preflight : Request
preflight = record { method = "OPTIONS"; header = λ h. ""; accepts_json = false }

abbrev cors_stub : CorsConfig → Handler
cors_stub c r = if r.method == "OPTIONS" then answer (json 204 "" "") else next

abbrev no_limit : Handler
no_limit r = next

abbrev public_route : RouteConfig
public_route = record {
  enable_cors = true;
  cors_config = none;
  write_concurrency = true;
  enable_sec_fetch_site = none;
  custom_middleware = [];
}

abbrev hello : Request → Response
hello r = json 200 "" "hello"

register_route-refuses_example :
    (m : String) × (serve
        (route_handlers cors_stub no_limit cfg (some public_route))
        hello
        (post_from "cross-site")
      ≡ json 403 "forbidden" m)
unfolding program
register_route-refuses_example =
    register_route-refuses cors_stub no_limit cfg (some public_route) hello (post_from "cross-site")
      refl refl refl (inr refl)

-- The server's own handler names every JSON error an internal one.
not_found :
    create_default_error_handler (post_from "none") (fiber_error 404 "Cannot GET /x")
    ≡ json 404 "internal_server_error" "Cannot GET /x"
unfolding program
not_found = refl

-- The application's Shutdown never returns, and the context's deadline passes.
abbrev after_deadline : Shutdown
after_deadline = record {
  goroutine = closing;
  done = [];
  expired = true;
  caller = returned (some "context deadline exceeded");
}

after_deadline_reached : Run none (some "context deadline exceeded") 2 after_deadline
unfolding program
after_deadline_reached =
    steps 1 _ _
      (steps 0 _ _ Stopping.starts (expires "context deadline exceeded" closing [] selecting refl))
      (gives_up "context deadline exceeded" closing [] refl)

shutdown_ends_example :
    (2 ≤ 4)
    × (IsOver none (some "context deadline exceeded") after_deadline
        ⊎ ((t : Shutdown) × Step none (some "context deadline exceeded") after_deadline t))
shutdown_ends_example =
    shutdown_ends none (some "context deadline exceeded") (inr (λ e. ground (arith, e))) 2
      after_deadline after_deadline_reached

abbrev from_browser : Request
from_browser = record { method = "GET"; header = λ h. ""; accepts_json = false }

code_text : decimal 1207 ≡ "1207"
unfolding program
code_text = refl

not_empty : message_of (other "<b>no such table</b>") ≢ ""
unfolding program
not_empty e = let x : false ≡ true = ap (λ s. s == "") e in cc

same_status : status_of (other "<b>no such table</b>") ≡ status_of (fiber_error 500 "bad")
unfolding program
same_status = refl

default_error_handler_page_example :
    (default_error_handler false from_browser (other "<b>no such table</b>")
      ≡ default_error_handler false from_browser (fiber_error 500 "bad"))
    × (page_text (default_error_handler true from_browser (other "<b>no such table</b>"))
        ≡ some (
            append
              (append
                (page_start
                  (status_of (other "<b>no such table</b>"))
                  (error_code_name (status_of (other "<b>no such table</b>"))))
                details_start)
              (append (message_of (other "<b>no such table</b>")) (append "</p>" page_end))))
default_error_handler_page_example =
    default_error_handler_page from_browser (other "<b>no such table</b>") (fiber_error 500 "bad")
      refl same_status not_empty
