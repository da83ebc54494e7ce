-- ===== src/Sqlite/Manager.antt =====
-- sqlite/manager.go: the connection manager for SQLite alone. Answers and handles are those of the
-- model of database/manager.go; its errors are this package's own.
pub mod Pluggable
pub mod Settings
mod Tests
use Prim.Native.String.{◌++◌}
use cartridge.Prelude.Int.{ℤ, pos, leb_ℤ, ltb_ℤ}
use cartridge.Prelude.{
  ℕ, suc, ◌*◌, String, Bool, true, false, not, ◌&&◌, Option, none, some, List, [], ◌∷◌,
  if◌then◌else◌,
}
use cartridge.Database.Driver.{Statement, wal_checkpoint, sqlite_pragmas, exec_all}
use cartridge.Database.Manager.{Answers}

-- Errors by the step that failed, with the error that is wrapped. Their texts begin with "sqlite:",
-- where those of package database begin with "database:"; a checkpoint's error is not wrapped.
pub data SqliteFailure : Type 0 where
  open_failed pragma_failed sql_db_failed close_failed checkpoint_failed : String → SqliteFailure

-- A session of the connection, the error, or a call of Session through the nil pointer.
pub data SqliteConnected : Type 0 where
  session : ℕ → SqliteConnected
  failed : SqliteFailure → SqliteConnected
  session_of_nil : SqliteConnected

pub record SqliteConfig : Type 0 where
  pub path : String
  pub max_open_conns : ℤ
  pub max_idle_conns : ℤ
  pub conn_max_lifetime : ℤ
  pub busy_timeout : ℤ
  pub enable_wal : Bool
  pub tx_immediate : Bool

pub record SqliteManager : Type 0 where
  pub cfg : SqliteConfig
  pub db : Option ℕ
  pub once_done : Bool
  pub opened : ℕ  -- how many connections were opened, which gives each its handle

abbrev pub positive_or : ℤ → ℤ → ℤ
positive_or d n = if leb_ℤ n (pos 0) then d else n

abbrev is_zero : ℤ → Bool
is_zero n = leb_ℤ n (pos 0) && leb_ℤ (pos 0) n

unfoldable pub with_defaults : SqliteConfig → SqliteConfig
with_defaults cfg = record {
  path = cfg.path;
  max_open_conns = positive_or (pos 1) cfg.max_open_conns;
  max_idle_conns = positive_or (pos 1) cfg.max_idle_conns;
  conn_max_lifetime =
      if is_zero cfg.conn_max_lifetime then pos (600 * 1_000_000_000) else cfg.conn_max_lifetime;
  busy_timeout = positive_or (pos 5000) cfg.busy_timeout;
  enable_wal = if not cfg.enable_wal then true else cfg.enable_wal;
  tx_immediate = if not cfg.tx_immediate then true else cfg.tx_immediate;
}

unfoldable pub new_sqlite_manager : SqliteConfig → SqliteManager
unfolding with_defaults
new_sqlite_manager cfg = record {
  cfg = with_defaults cfg;
  db = none;
  once_done = false;
  opened = 0;
}

unfoldable pub dsn_of : SqliteConfig → String
dsn_of cfg = if cfg.tx_immediate then cfg.path ++ "?_txlock=immediate" else cfg.path

unfoldable pub apply_pragmas : (Statement → Option String) → SqliteConfig → Option String
apply_pragmas exec cfg = exec_all exec (sqlite_pragmas cfg.busy_timeout cfg.enable_wal)

-- The end of open, by the answer of each of its steps.
abbrev pub opening_steps :
    Option String
    → Option String
    → Option String
    → SqliteManager
    → SqliteManager × Option SqliteFailure
opening_steps (some e) pragmas sql m = (m, some (open_failed e))
opening_steps none (some e) sql m = (m, some (pragma_failed e))
opening_steps none none (some e) m = (m, some (sql_db_failed e))
opening_steps none none none m = (record m { db = some m.opened; opened = suc m.opened }, none)

unfoldable pub open_path : Answers → SqliteManager → SqliteManager × Option SqliteFailure
unfolding dsn_of apply_pragmas
open_path a m = elim m.db [
  | some h ↦ (m, none)
  | none ↦ opening_steps (a.opening (dsn_of m.cfg)) (apply_pragmas a.exec m.cfg) a.sql_db m
]

-- What Connect gives after its once.
abbrev pub connected : Option ℕ → Option SqliteFailure → SqliteConnected
connected db (some e) = failed e
connected (some h) none = session h
connected none none = session_of_nil

unfoldable pub connect : Answers → SqliteManager → SqliteManager × SqliteConnected
unfolding open_path
connect a m =
    let (m', err) = open_path a m in
    if m.once_done
    then (m, connected m.db none)
    else (record m' { once_done = true }, connected m'.db err)

abbrev pub or_nil : SqliteConnected → Option SqliteConnected
or_nil (failed e) = none
or_nil (session h) = some (session h)
or_nil session_of_nil = some session_of_nil

-- `none` is the nil that a failure gives.
unfoldable pub get_connection : Answers → SqliteManager → SqliteManager × Option SqliteConnected
unfolding connect
get_connection a m = let (m', c) = connect a m in (m', or_nil c)

abbrev pub closing_steps :
    Option String → Option String → SqliteManager → SqliteManager × Option SqliteFailure
closing_steps (some e) closing m = (m, some (sql_db_failed e))
closing_steps none (some e) m = (m, some (close_failed e))
closing_steps none none m = (record m { db = none; once_done = false }, none)

unfoldable pub close : Answers → SqliteManager → SqliteManager × Option SqliteFailure
close a m = elim m.db [ none ↦ (m, none) | some h ↦ closing_steps a.sql_db a.closing m ]

abbrev pub checkpoint_with :
    (Statement → Option String) → String → SqliteConnected → SqliteConnected × Option SqliteFailure
checkpoint_with exec mode (failed e) = (failed e, some e)
checkpoint_with exec mode session_of_nil = (session_of_nil, none)
checkpoint_with exec mode (session h) = (
  session h,
  elim (exec (wal_checkpoint mode)) [ none ↦ none | some e ↦ some (checkpoint_failed e) ],
)

-- The connection that the checkpoint used, and the error.
unfoldable pub checkpoint_wal :
    Answers → String → SqliteManager → SqliteManager × (SqliteConnected × Option SqliteFailure)
unfolding connect
checkpoint_wal a mode m = let (m', c) = connect a m in (m', checkpoint_with a.exec mode c)
