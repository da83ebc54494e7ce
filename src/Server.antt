-- ===== src/Server.antt =====
-- server.go, errors.go: what a server registers with its Fiber application, in order.
pub mod Routes
pub mod Errors
pub mod Setup
pub mod Shutdown
pub mod Requests
pub mod ErrorPage
mod Tests
use Prim.Native.String as Str
use cartridge.Prelude.{
  ℕ, ◌*◌, String, Bool, true, false, not, Option, none, some, List, [], ◌∷◌, ◌++◌, ◌⊎◌, inl, inr,
  ◌==◌, string_comparable, if◌then◌else◌,
}
use cartridge.Middleware.Chain.{Request, Response, Handler}
use cartridge.Server.Errors.{ErrorHandler, create_default_error_handler}

-- What the server asks of the runtime configuration.
pub record Runtime : Type 0 where
  pub port : String
  pub public_directory : String

-- `none` is nil; loggers and database managers are numbers. A file system is its root directory:
-- names, and whether each is a directory; `none` in place of the list where it cannot be read. What
-- NewServer only passes on to Fiber (limits, timeouts, proxies and the templates' engine) is left out.
pub record ServerConfig : Type 0 where
  pub config : Option Runtime
  pub logger : Option ℕ
  pub db_manager : Option ℕ
  pub error_handler : Option ErrorHandler
  pub enable_static_assets : Bool
  pub static_prefix : String
  pub static_directory : String
  pub has_static_fs : Bool
  pub public_fs : Option (Option (List (String × Bool)))
  pub public_directory : String
  pub enable_request_id : Bool
  pub enable_recover : Bool
  pub enable_helmet : Bool
  pub enable_compress : Bool
  pub enable_sec_fetch_site : Bool
  pub enable_request_logger : Bool
  pub sec_fetch_site_allowed_values : List String
  pub max_concurrent_reads : ℕ
  pub max_concurrent_writes : ℕ
  pub concurrency_timeout : ℕ

unfoldable pub default_server_config : ServerConfig
default_server_config = record {
  config = none;
  logger = none;
  db_manager = none;
  error_handler = none;
  enable_static_assets = true;
  static_prefix = "/assets";
  static_directory = "";
  has_static_fs = false;
  public_fs = none;
  public_directory = "";
  enable_request_id = true;
  enable_recover = true;
  enable_helmet = true;
  enable_compress = true;
  enable_sec_fetch_site = true;
  enable_request_logger = true;
  sec_fetch_site_allowed_values = [];
  max_concurrent_reads = 128;
  max_concurrent_writes = 8;
  concurrency_timeout = 5 * 1_000_000_000;
}

pub data Global : Type 0 where
  request_id recover helmet compress request_logger : Global

-- A registration with the Fiber application.
pub data Registration : Type 0 where
  uses : Global → Registration
  static_fs public_file : String → Registration
  static_directory_at : String → String → Registration
  route : String → String → List Handler → (Request → Response) → Registration
  redirects_all : String → Registration

pub record Server : Type 0 where
  pub cfg : ServerConfig
  pub error_handler : ErrorHandler
  pub app : List Registration
  pub catch_all : String
  pub session : Option ℕ

-- The errors of NewServer, by what is missing.
pub data Missing : Type 0 where
  server_config runtime_config logger_field db_manager_field : Missing

unfoldable pub use_if : Bool → Global → List Registration
use_if true g = uses g ∷ []
use_if false g = []

unfoldable pub setup_global_middleware : ServerConfig → List Registration
setup_global_middleware cfg =
    use_if cfg.enable_request_id request_id
    ++ use_if cfg.enable_recover recover
    ++ use_if cfg.enable_helmet helmet
    ++ use_if cfg.enable_compress compress
    ++ use_if cfg.enable_request_logger request_logger

unfoldable pub setup_static_assets : Runtime → ServerConfig → List Registration
setup_static_assets config cfg =
    let prefix = if cfg.static_prefix == "" then "/assets" else cfg.static_prefix in
    let dir =
      if cfg.static_directory == "" then config.public_directory else cfg.static_directory in
    if not cfg.enable_static_assets
    then []
    else if cfg.has_static_fs
    then static_fs prefix ∷ []
    else if dir == ""
    then []
    else static_directory_at prefix dir ∷ []

unfoldable pub public_files : List (String × Bool) → List Registration
public_files [] = []
public_files ((name, true) ∷ entries) = public_files entries
public_files ((name, false) ∷ entries) = public_file (Str.◌++◌ "/" name) ∷ public_files entries

unfoldable pub setup_public_files : ServerConfig → Option (List (String × Bool)) → List Registration
setup_public_files cfg on_disk = elim cfg.public_fs [
  | some (some entries) ↦ public_files entries
  | some none ↦ []
  | none ↦
      if cfg.public_directory == ""
      then []
      else elim on_disk [ some entries ↦ public_files entries | none ↦ [] ]
]

abbrev pub error_handler_or_default : Option ErrorHandler → ErrorHandler
error_handler_or_default none = create_default_error_handler
error_handler_or_default (some handler) = handler

abbrev pub fresh_server : ServerConfig → Option (List (String × Bool)) → Runtime → Server
fresh_server cfg on_disk config = record {
  cfg = cfg;
  error_handler = error_handler_or_default cfg.error_handler;
  app =
      setup_global_middleware cfg
      ++ setup_static_assets config cfg
      ++ setup_public_files cfg on_disk;
  catch_all = "";
  session = none;
}

-- The checks in their order, by the fields that they test.
abbrev pub validated : Option Runtime → Option ℕ → Option ℕ → Missing ⊎ Runtime
validated none logger db = inl runtime_config
validated (some config) none db = inl logger_field
validated (some config) (some l) none = inl db_manager_field
validated (some config) (some l) (some d) = inr config

abbrev pub built :
    ServerConfig → Option (List (String × Bool)) → Missing ⊎ Runtime → Missing ⊎ Server
built cfg on_disk (inl e) = inl e
built cfg on_disk (inr config) = inr (fresh_server cfg on_disk config)

-- `on_disk` is what reading the public directory gives.
unfoldable pub new_server : Option ServerConfig → Option (List (String × Bool)) → Missing ⊎ Server
unfolding setup_global_middleware setup_static_assets setup_public_files public_files
new_server none on_disk = inl server_config
new_server (some cfg) on_disk = built cfg on_disk (validated cfg.config cfg.logger cfg.db_manager)

unfoldable pub set_session : Option ℕ → Server → Server
set_session sm s = record s { session = sm }

unfoldable pub set_catch_all_redirect : String → Server → Server
set_catch_all_redirect path s = record s { catch_all = path }

-- Start up to Listen: the registrations of the application that then serves, and the address.
unfoldable pub start : Server → Runtime → List Registration × String
start s config = (
  if s.catch_all == "" then s.app else s.app ++ redirects_all s.catch_all ∷ [],
  Str.◌++◌ ":" config.port,
)

abbrev logged_error : Option String → List String
logged_error none = []
logged_error (some e) = e ∷ []

-- StartAsync by what Listen returns: the registrations and the address of Start, and the errors
-- that its goroutine logs. The caller gets nil at once.
unfoldable pub start_async :
    Option String → Server → Runtime → (List Registration × String) × List String
unfolding start
start_async listen s config = (start s config, logged_error listen)
