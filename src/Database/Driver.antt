-- ===== src/Database/Driver.antt =====
-- database/config.go, database/driver.go, sqlite/driver.go, postgres/driver.go: the configuration
-- and the two drivers. A driver is what it does to the DSN and the statements that it executes;
-- whether a statement fails is an argument.
use Prim.Native.String.{◌++◌}
use cartridge.Prelude.Int.{ℤ, pos}
use cartridge.Prelude.{
  ◌*◌, String, Bool, true, false, Option, none, some, List, [], ◌∷◌, ◌==◌, string_comparable,
  if◌then◌else◌, has_part,
}

pub record Config : Type 0 where
  pub dsn : String
  pub max_open_conns : ℤ
  pub max_idle_conns : ℤ
  pub conn_max_lifetime : ℤ
  pub busy_timeout : ℤ
  pub enable_wal : Bool
  pub tx_immediate : Bool
  pub ssl_mode : String
  pub timezone : String
  pub search_path : String

unfoldable pub default_config : String → Config
default_config dsn = record {
  dsn = dsn;
  max_open_conns = pos 1;
  max_idle_conns = pos 1;
  conn_max_lifetime = pos (600 * 1_000_000_000);
  busy_timeout = pos 5000;
  enable_wal = true;
  tx_immediate = true;
  ssl_mode = "prefer";
  timezone = "UTC";
  search_path = "";
}

pub data Statement : Type 0 where
  busy_timeout_is : ℤ → Statement
  synchronous_normal temp_store_memory journal_mode_wal : Statement
  search_path_is wal_checkpoint : String → Statement

pub record Driver : Type 0 where
  pub name : String
  pub configure_dsn : String → Config → String
  pub after_connect : Config → List Statement
  pub on_close : List Statement
  pub supports_checkpoint : Bool
  pub checkpoint : String → List Statement

-- The statements run in order up to the first error, which is returned.
unfoldable pub exec_all : (Statement → Option String) → List Statement → Option String
exec_all exec [] = none
exec_all exec (s ∷ ss) =
    let rest = exec_all exec ss in elim (exec s) [ some e ↦ some e | none ↦ rest ]

unfoldable pub sqlite_configure_dsn : String → Config → String
sqlite_configure_dsn dsn cfg = if cfg.tx_immediate then dsn ++ "?_txlock=immediate" else dsn

unfoldable pub sqlite_pragmas : ℤ → Bool → List Statement
sqlite_pragmas timeout wal =
    busy_timeout_is timeout
    ∷ synchronous_normal
    ∷ temp_store_memory
    ∷ (if wal then journal_mode_wal ∷ [] else [])

abbrev pub sqlite_driver : Driver
sqlite_driver = record {
  name = "sqlite";
  configure_dsn = sqlite_configure_dsn;
  after_connect = λ cfg. sqlite_pragmas cfg.busy_timeout cfg.enable_wal;
  on_close = wal_checkpoint "PASSIVE" ∷ [];
  supports_checkpoint = true;
  checkpoint = λ mode. wal_checkpoint mode ∷ [];
}

-- strings.Join(params, "&")
join_params : List String → String
join_params [] = ""
join_params (p ∷ []) = p
join_params (p ∷ q ∷ ps) = p ++ "&" ++ join_params (q ∷ ps)

unfoldable pub postgres_params : Config → List String
postgres_params cfg =
    let timezone = if cfg.timezone == "" then [] else ("TimeZone=" ++ cfg.timezone) ∷ [] in
    if cfg.ssl_mode == "" then timezone else ("sslmode=" ++ cfg.ssl_mode) ∷ timezone

abbrev append_params : String → String → List String → String
append_params dsn separator [] = dsn
append_params dsn separator (p ∷ ps) = dsn ++ separator ++ join_params (p ∷ ps)

unfoldable pub postgres_configure_dsn : String → Config → String
unfolding postgres_params join_params
postgres_configure_dsn dsn cfg =
    append_params dsn (if has_part dsn "?" then "&" else "?") (postgres_params cfg)

abbrev pub postgres_driver : Driver
postgres_driver = record {
  name = "postgres";
  configure_dsn = postgres_configure_dsn;
  after_connect = λ cfg. if cfg.search_path == "" then [] else search_path_is cfg.search_path ∷ [];
  on_close = [];
  supports_checkpoint = false;
  checkpoint = λ mode. [];
}
