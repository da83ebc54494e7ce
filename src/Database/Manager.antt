-- ===== src/Database/Manager.antt =====
-- database/manager.go: a connection that is opened once, on first use. What GORM answers at each
-- call is an argument. Handles are numbers; `none` for the database is the nil pointer. The mutex
-- and sync.Once make each call one step. Logging is left out.
pub mod Once
pub mod Reopen
mod Tests
use cartridge.Prelude.{
  ℕ, suc, String, Bool, true, false, not, Option, none, some, List, [], ◌∷◌, if◌then◌else◌,
}
use cartridge.Database.Driver.{Config, Driver, Statement, exec_all, default_config}

pub data Failure : Type 0 where
  open_failed after_connect_failed sql_db_failed close_failed checkpoint_failed : String → Failure

-- What GORM and the database answer during one call.
pub record Answers : Type 0 where
  pub opening : String → Option String  -- by the DSN
  pub exec : Statement → Option String
  pub sql_db : Option String
  pub closing : Option String

pub record Manager : Type 0 where
  pub driver : Driver
  pub cfg : Config
  pub db : Option ℕ
  pub once_done : Bool
  pub opened : ℕ  -- how many connections were opened, which gives each its handle

-- A session of the connection, the error, or a call of Session through the nil pointer.
pub data Connected : Type 0 where
  session : ℕ → Connected
  failed : Failure → Connected
  session_of_nil : Connected

unfoldable pub new_manager : Driver → Option Config → Manager
new_manager driver cfg = record {
  driver = driver;
  cfg = elim cfg [ none ↦ default_config "" | some c ↦ c ];
  db = none;
  once_done = false;
  opened = 0;
}

-- The part of open that runs while there is no connection, by the answers to its steps.
unfoldable pub open_fresh :
    Option String → Option String → Option String → Manager → Manager × Option Failure
open_fresh (some e) after sql m = (m, some (open_failed e))
open_fresh none (some e) sql m = (m, some (after_connect_failed e))
open_fresh none none (some e) m = (m, some (sql_db_failed e))
open_fresh none none none m = (record m { db = some m.opened; opened = suc m.opened }, none)

abbrev pub is_open : Option ℕ → Bool
is_open none = false
is_open (some h) = true

unfoldable pub open_db : Answers → Manager → Manager × Option Failure
unfolding open_fresh exec_all
open_db a m =
    if is_open m.db
    then (m, none)
    else open_fresh (a.opening (m.driver.configure_dsn m.cfg.dsn m.cfg))
        (exec_all a.exec (m.driver.after_connect m.cfg)) a.sql_db m

abbrev pub session_for : Option ℕ → Option Failure → Connected
session_for db (some e) = failed e
session_for none none = session_of_nil
session_for (some h) none = session h

unfoldable pub connect : Answers → Manager → Manager × Connected
unfolding open_db
connect a m =
    let (m', err) = open_db a m in
    if m.once_done
    then (m, session_for m.db none)
    else (record m' { once_done = true }, session_for m'.db err)

abbrev pub connection_of : Connected → Option Connected
connection_of (failed e) = none
connection_of c = some c

-- `none` is the nil that a failure gives.
unfoldable pub get_connection : Answers → Manager → Manager × Option Connected
unfolding connect
get_connection a m = let (m', c) = connect a m in (m', connection_of c)

unfoldable pub close_open : Option String → Option String → Manager → Manager × Option Failure
close_open (some e) closing m = (m, some (sql_db_failed e))
close_open none (some e) m = (m, some (close_failed e))
close_open none none m = (record m { db = none; once_done = false }, none)

-- The driver's own cleanup runs first; its error is only logged.
unfoldable pub close : Answers → Manager → Manager × Option Failure
unfolding close_open
close a m = if is_open m.db then close_open a.sql_db a.closing m else (m, none)

abbrev pub checkpoint_on :
    Driver → (Statement → Option String) → String → Connected → Connected × Option Failure
checkpoint_on driver exec mode (failed e) = (failed e, some e)
checkpoint_on driver exec mode session_of_nil = (session_of_nil, none)
checkpoint_on driver exec mode (session h) = (
  session h,
  elim (exec_all exec (driver.checkpoint mode)) [
    | none ↦ none
    | some e ↦ some (checkpoint_failed e)
  ],
)

-- The connection that the checkpoint used, and the error; a driver without checkpoints does nothing.
unfoldable pub checkpoint_wal :
    Answers → String → Manager → Manager × Option (Connected × Option Failure)
unfolding connect exec_all
checkpoint_wal a mode m =
    let (m', c) = connect a m in
    if not m.driver.supports_checkpoint
    then (m, none)
    else (m', some (checkpoint_on m.driver a.exec mode c))
