-- ===== src/TestSupport.antt =====
-- Package testsupport: the test database, configuration and server of an application's own tests.
-- What GORM and SQLite answer, and Fiber's App.Test, are arguments; t.Fatalf ends a test.
pub mod Servers
mod Tests
use Prim.Native.String as Str
use cartridge.Prelude.{
  ℕ, String, Bool, true, false, Option, none, some, List, [], ◌∷◌, ◌++◌, ◌⊎◌, inl, inr,
  if◌then◌else◌,
}
use cartridge.Server.{ServerConfig, Server, Runtime, Missing, new_server, default_server_config}

-- database.go. Models are numbers.
pub record TestDbOptions : Type 0 where
  pub models : List ℕ
  pub verbose : Bool

-- What is asked of the database, in order.
pub data DbCall : Type 0 where
  opens : String → Bool → DbCall
  executes : String → DbCall
  migrates : List ℕ → DbCall
  closes_at_end : DbCall

pub record DbAnswers : Type 0 where
  pub opening : Option String
  pub exec : String → Option String
  pub migrating : List ℕ → Option String

-- The failures that end a test.
pub data Fatal : Type 0 where
  open_failed migrate_failed : String → Fatal
  pragma_failed : String → String → Fatal
  server_failed : Missing → Fatal
  request_failed : String → Fatal

abbrev pub first_or {ℓ} : {A : Type ℓ} → A → List A → A
first_or a [] = a
first_or a (x ∷ xs) = x

abbrev pub and_then :
    List DbCall × Option Fatal → List DbCall × Option Fatal → List DbCall × Option Fatal
and_then (calls, some f) later = (calls, some f)
and_then (calls, none) (more, err) = (calls ++ more, err)

abbrev pub failing : (String → Fatal) → Option String → Option Fatal
failing f none = none
failing f (some e) = some (f e)

unfoldable pub apply_pragmas : DbAnswers → List String → List DbCall × Option Fatal
apply_pragmas a [] = ([], none)
apply_pragmas a (p ∷ ps) =
    and_then (executes p ∷ [], failing (pragma_failed p) (a.exec p)) (apply_pragmas a ps)

abbrev pub test_pragmas : List String
test_pragmas = "PRAGMA foreign_keys = ON" ∷ "PRAGMA journal_mode = WAL" ∷ []

unfoldable pub migrate_models : DbAnswers → List ℕ → List DbCall × Option Fatal
migrate_models a [] = ([], none)
migrate_models a (m ∷ ms) = (migrates (m ∷ ms) ∷ [], failing migrate_failed (a.migrating (m ∷ ms)))

unfoldable pub setup_test_db : DbAnswers → List TestDbOptions → List DbCall × Option Fatal
unfolding apply_pragmas migrate_models
setup_test_db a opts =
    let options = first_or (record { models = []; verbose = false }) opts in
    and_then (opens ":memory:" options.verbose ∷ [], failing open_failed a.opening)
      (and_then (apply_pragmas a test_pragmas)
        (and_then (migrate_models a options.models) (closes_at_end ∷ [], none)))

-- The test's database manager gives the handle that it was made with.
pub record TestDbManager : Type 0 where
  pub db : ℕ

unfoldable pub new_test_db_manager : ℕ → TestDbManager
new_test_db_manager db = record { db = db }

unfoldable pub get_connection : TestDbManager → ℕ
get_connection m = m.db

unfoldable pub connect : TestDbManager → String ⊎ ℕ
connect m = inr m.db

-- helpers.go
pub record TestConfig : Type 0 where
  pub port : String
  pub environment : String
  pub public_directory : String
  pub assets_prefix : String

unfoldable pub new_test_config : TestConfig
new_test_config = record {
  port = "0";
  environment = "test";
  public_directory = "";
  assets_prefix = "/assets";
}

-- server.go. Handles of loggers and databases are numbers.
pub record TestServerOptions : Type 0 where
  pub models : List ℕ
  pub mount : Option (Server → Server)
  pub server_config : Option ServerConfig
  pub disable_middleware : Bool

pub record TestServer : Type 0 where
  pub server : Server
  pub db : TestDbManager
  pub logger : ℕ
  pub config : TestConfig

abbrev pub runtime_of : TestConfig → Runtime
runtime_of c = record { port = c.port; public_directory = c.public_directory }

abbrev pub given_or_default : Option ServerConfig → ServerConfig
given_or_default none = default_server_config
given_or_default (some cfg) = cfg

abbrev pub without_middleware : Bool → ServerConfig → ServerConfig
without_middleware true cfg = record cfg {
  enable_request_logger = false;
  enable_sec_fetch_site = false;
}
without_middleware false cfg = cfg

unfoldable pub test_server_config : TestServerOptions → ℕ → TestDbManager → ServerConfig
unfolding new_test_config
test_server_config options logger m =
    without_middleware options.disable_middleware (record (given_or_default options.server_config) {
      config = some (runtime_of new_test_config);
      logger = some logger;
      db_manager = some m.db;
    })

abbrev pub mounted : Option (Server → Server) → Server → Server
mounted none s = s
mounted (some f) s = f s

abbrev pub made :
    TestServerOptions → TestDbManager → ℕ → Option Fatal → Missing ⊎ Server → Fatal ⊎ TestServer
made options m logger (some f) s = inl f
made options m logger none (inl e) = inl (server_failed e)
made options m logger none (inr s) =
    inr (record {
      server = mounted options.mount s;
      db = m;
      logger = logger;
      config = new_test_config;
    })

abbrev pub no_test_options : TestServerOptions
no_test_options = record {
  models = [];
  mount = none;
  server_config = none;
  disable_middleware = false;
}

-- `db` and `logger` are the handles of the new database and logger, `on_disk` is what reading the
-- public directory gives.
unfoldable pub new_test_server :
    DbAnswers
    → ℕ
    → ℕ
    → Option (List (String × Bool))
    → List TestServerOptions
    → List DbCall × (Fatal ⊎ TestServer)
unfolding new_test_db_manager setup_test_db test_server_config
new_test_server a db logger on_disk opts =
    let options = first_or no_test_options opts in
    let (calls, failed) =
      setup_test_db a (record { models = options.models; verbose = false } ∷ []) in
    let m = new_test_db_manager db in
    (
      calls,
      made options m logger failed
          (new_server (some (test_server_config options logger m)) on_disk),
    )

-- A request of a test; `none` is no body.
pub record TestRequest : Type 0 where
  pub method : String
  pub path : String
  pub body : Option String
  pub content_type : String

abbrev pub body_of : List String → Option String
body_of [] = none
body_of (b ∷ bs) = some b

unfoldable pub request {ℓ} :
    {R : Type ℓ} → (TestRequest → String ⊎ R) → String → String → List String → Fatal ⊎ R
request app method path body =
    elim (app (record {
      method = method;
      path = path;
      body = body_of body;
      content_type = "application/json";
    })) [ inl e ↦ inl (request_failed e) | inr response ↦ inr response ]

module _ {ℓ} {R : Type ℓ} (app : TestRequest → String ⊎ R) where
  unfoldable pub get : String → Fatal ⊎ R
  get path = request app "GET" path []

  unfoldable pub post : String → String → Fatal ⊎ R
  post path body = request app "POST" path (body ∷ [])

  unfoldable pub put : String → String → Fatal ⊎ R
  put path body = request app "PUT" path (body ∷ [])

  unfoldable pub delete : String → Fatal ⊎ R
  delete path = request app "DELETE" path []
