-- ===== src/Context/Tests.antt =====
-- A first connection that fails, and requests behind it.
use cartridge.Prelude.{ℕ, ◌≡◌, refl, true, false, none, some, [], ◌∷◌, All, has_prefix}
use cartridge.Prelude.Int.{pos}
use cartridge.Database.Driver.{exec_all, sqlite_pragmas}
use cartridge.Database.Manager.{Answers}
use cartridge.Sqlite.Manager.{
  open_failed, SqliteConfig, new_sqlite_manager, open_path, connect, get_connection,
}
use cartridge.Middleware.Chain.{Request, json}
use cartridge.Middleware.RequestLogger.{Next, panic_value, panic_error, returns, panics, Exchange}
use cartridge.Server.{
  ServerConfig, Server, default_server_config, fresh_server, setup_global_middleware, use_if,
  setup_static_assets, setup_public_files,
}
use cartridge.Server.Errors.{ErrorHandler, HandlerError, fiber_error, status_of, message_of}
use cartridge.Server.Requests.{
  FiberMiddleware, globals, through, recovered, answered, failed_request,
}
use cartridge.Context.{
  get_db, fresh_context, wrap_handler, requests, nil_dereference, connection_failed,
}
use cartridge.Context.Outage.{using_db, IsUnavailable, outage_lasts}

program : Unit {0}
unfolding status_of default_server_config new_sqlite_manager open_path connect get_connection get_db
    fresh_context wrap_handler requests using_db setup_global_middleware use_if setup_static_assets
    setup_public_files exec_all sqlite_pragmas
program = tt

abbrev down : Answers
down = record {
  opening = λ dsn. some "unable to open database file";
  exec = λ q. none;
  sql_db = none;
  closing = none;
}

abbrev up : Answers
up = record { opening = λ dsn. none; exec = λ q. none; sql_db = none; closing = none }

abbrev sqlite : SqliteConfig
sqlite = record {
  path = "app.db";
  max_open_conns = pos 1;
  max_idle_conns = pos 1;
  conn_max_lifetime = pos 0;
  busy_timeout = pos 0;
  enable_wal = true;
  tx_immediate = true;
}

abbrev cfg : ServerConfig
cfg = record default_server_config {
  config = some (record { port = "8080"; public_directory = "" });
  logger = some 1;
  db_manager = some 2;
}

abbrev server : Server
server = fresh_server cfg none (record { port = "8080"; public_directory = "" })

abbrev plain : FiberMiddleware
plain = record { around = λ n. n; text = λ m. m; keeps = λ n. refl }

abbrev show : Exchange
show = record { method = "GET"; path = "/items"; ip = "::1"; duration = pos 3 }

abbrev from_browser : Request
from_browser = record { method = "GET"; header = λ h. ""; accepts_json = false }

abbrev found : ℕ → Next HandlerError
found h = returns none 200

-- The database is back for the second request, which panics all the same.
two_requests :
    requests server (using_db found) (down ∷ up ∷ []) (new_sqlite_manager sqlite)
    ≡ panics connection_failed 200 ∷ panics nil_dereference 200 ∷ []
unfolding program
two_requests = refl

-- With the database there from the start, both are served.
two_served :
    requests server (using_db found) (up ∷ up ∷ []) (new_sqlite_manager sqlite)
    ≡ returns none 200 ∷ returns none 200 ∷ []
unfolding program
two_served = refl

first_down :
    (open_path down (new_sqlite_manager sqlite)).1
    ≡ some (open_failed "unable to open database file")
unfolding program
first_down = refl

logs : server.cfg.enable_request_logger ≡ true
unfolding program
logs = refl

recovers : server.cfg.enable_recover ≡ true
unfolding program
recovers = refl

outage_lasts_example :
    All
      (IsUnavailable plain server show from_browser)
      (requests server (using_db found) (down ∷ up ∷ []) (new_sqlite_manager sqlite))
unfolding program
outage_lasts_example =
    outage_lasts plain server show from_browser found down (up ∷ []) sqlite
      (open_failed "unable to open database file") recovers logs refl first_down

not_health : has_prefix "/items" "/_health" ≡ false
unfolding has_prefix
not_health = refl

-- A handler that is given to the server answers each error, here with status 418.
abbrev teapot : ErrorHandler
teapot r e = json 418 "teapot" (message_of e)

teapot_answers :
    answered plain
      (fresh_server
        (record cfg { error_handler = some teapot })
        none
        (record { port = "8080"; public_directory = "" })).error_handler
      from_browser
      (recovered plain (panics (panic_value "index out of range") 200))
    ≡ some 418
unfolding program answered
teapot_answers = refl

failed_request_example :
    let gs = globals (setup_global_middleware cfg) in
    let handler = server.error_handler in
    let failed = through plain show gs (returns (some (fiber_error 404 "no such item")) 200, []) in
    let panicked = through plain show gs (panics (panic_error (fiber_error 409 "taken")) 200, []) in
    (failed.1
      ≡ record { method = "GET"; path = "/items"; status = 200; duration = pos 3; ip = "::1" } ∷ [])
    × (answered plain handler from_browser failed.0 ≡ some 404)
    × (panicked.1 ≡ [])
    × (answered plain handler from_browser panicked.0 ≡ some 409)
unfolding program
failed_request_example =
    failed_request plain cfg none (record { port = "8080"; public_directory = "" }) show
      from_browser (fiber_error 404 "no such item") (panic_error (fiber_error 409 "taken")) 200
      recovers logs not_health
