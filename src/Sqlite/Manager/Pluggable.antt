-- ===== src/Sqlite/Manager/Pluggable.antt =====
-- The SQLite manager as the manager of package database with its SQLite driver.
use cartridge.Prelude.{
  ℕ, ◌≡◌, refl, ap, ◌∙◌, String, Bool, true, false, Option, none, some, [], ◌∷◌, if◌then◌else◌,
  arith,
}
use cartridge.Database.Driver.{
  Config, Statement, sqlite_driver, sqlite_configure_dsn, exec_all, wal_checkpoint,
}
use cartridge.Database.Manager.{Manager, Answers, Failure, Connected, open_fresh, close_open}
use cartridge.Database.Manager as Database
use cartridge.Sqlite.Manager.{
  SqliteFailure, open_failed, pragma_failed, sql_db_failed, close_failed, checkpoint_failed,
  SqliteConnected, session, failed, session_of_nil, SqliteConfig, SqliteManager, dsn_of,
  apply_pragmas, opening_steps, closing_steps, connected, or_nil, checkpoint_with, open_path,
  connect, get_connection, close, checkpoint_wal,
}

abbrev pub as_config : SqliteConfig → Config
as_config cfg = record {
  dsn = cfg.path;
  max_open_conns = cfg.max_open_conns;
  max_idle_conns = cfg.max_idle_conns;
  conn_max_lifetime = cfg.conn_max_lifetime;
  busy_timeout = cfg.busy_timeout;
  enable_wal = cfg.enable_wal;
  tx_immediate = cfg.tx_immediate;
  ssl_mode = "";
  timezone = "";
  search_path = "";
}

abbrev pub as_manager : SqliteManager → Manager
as_manager m = record {
  driver = sqlite_driver;
  cfg = as_config m.cfg;
  db = m.db;
  once_done = m.once_done;
  opened = m.opened;
}

-- The error of package database for the same step and the same cause.
abbrev pub as_failure : SqliteFailure → Failure
as_failure (open_failed e) = Database.open_failed e
as_failure (pragma_failed e) = Database.after_connect_failed e
as_failure (sql_db_failed e) = Database.sql_db_failed e
as_failure (close_failed e) = Database.close_failed e
as_failure (checkpoint_failed e) = Database.checkpoint_failed e

abbrev pub as_error : Option SqliteFailure → Option Failure
as_error none = none
as_error (some f) = some (as_failure f)

abbrev pub as_connected : SqliteConnected → Connected
as_connected (session h) = Database.session h
as_connected (failed f) = Database.failed (as_failure f)
as_connected session_of_nil = Database.session_of_nil

abbrev pub as_connection : Option SqliteConnected → Option Connected
as_connection none = none
as_connection (some c) = some (as_connected c)

-- A result of the one manager as a result of the other.
abbrev pub as_result {ℓ κ} : {A : Type ℓ} {B : Type κ} → (A → B) → SqliteManager × A → Manager × B
as_result f (m, x) = (as_manager m, f x)

opening_steps-open_fresh :
    (o p s : Option String) (m : SqliteManager)
    → open_fresh o p s (as_manager m) ≡ as_result as_error (opening_steps o p s m)
unfolding open_fresh
opening_steps-open_fresh (some e) p s m = refl
opening_steps-open_fresh none (some e) s m = refl
opening_steps-open_fresh none none (some e) m = refl
opening_steps-open_fresh none none none m = refl

closing_steps-close_open :
    (s c : Option String) (m : SqliteManager)
    → close_open s c (as_manager m) ≡ as_result as_error (closing_steps s c m)
unfolding close_open
closing_steps-close_open (some e) c m = refl
closing_steps-close_open none (some e) m = refl
closing_steps-close_open none none m = refl

abbrev at_state : SqliteConfig → Option ℕ → Bool → ℕ → SqliteManager
at_state cfg db used n = record { cfg = cfg; db = db; once_done = used; opened = n }

open_at :
    (a : Answers) (cfg : SqliteConfig) (db : Option ℕ) (used : Bool) (n : ℕ)
    → Database.open_db a (as_manager (at_state cfg db used n))
      ≡ as_result as_error (open_path a (at_state cfg db used n))
unfolding Database.open_db open_path dsn_of apply_pragmas sqlite_configure_dsn
open_at a cfg none used n =
    opening_steps-open_fresh (a.opening (dsn_of cfg)) (apply_pragmas a.exec cfg) a.sql_db
      (record { cfg = cfg; db = none; once_done = used; opened = n })
open_at a cfg (some h) used n = refl

open_path-open_db :
    (a : Answers) (m : SqliteManager)
    → Database.open_db a (as_manager m) ≡ as_result as_error (open_path a m)
open_path-open_db a m = open_at a m.cfg m.db m.once_done m.opened

session_for-connected :
    (db : Option ℕ) (err : Option SqliteFailure)
    → Database.session_for db (as_error err) ≡ as_connected (connected db err)
session_for-connected db (some e) = refl
session_for-connected none none = refl
session_for-connected (some h) none = refl

-- The end of Connect, by whether the once was used before.
abbrev ending :
    Bool → SqliteManager → SqliteManager × Option SqliteFailure → SqliteManager × SqliteConnected
ending b m (n, err) =
    if b then (m, connected m.db none) else (record n { once_done = true }, connected n.db err)

abbrev database_ending : Bool → Manager → Manager × Option Failure → Manager × Connected
database_ending b m (n, err) =
    if b
    then (m, Database.session_for m.db none)
    else (record n { once_done = true }, Database.session_for n.db err)

ending-same :
    (b : Bool) (m n : SqliteManager) (err : Option SqliteFailure)
    → database_ending b (as_manager m) (as_manager n, as_error err)
      ≡ as_result as_connected (ending b m (n, err))
ending-same true m n err = ap (λ c. (as_manager m, c)) (session_for-connected m.db none)
ending-same false m n err =
    ap (λ c. (as_manager (record n { once_done = true }), c)) (session_for-connected n.db err)

connect-connect :
    (a : Answers) (m : SqliteManager)
    → Database.connect a (as_manager m) ≡ as_result as_connected (connect a m)
unfolding Database.connect connect
connect-connect a m =
    ap (database_ending m.once_done (as_manager m)) (open_path-open_db a m)
    ∙ ending-same m.once_done m (open_path a m).0 (open_path a m).1

close_at :
    (a : Answers) (cfg : SqliteConfig) (db : Option ℕ) (used : Bool) (n : ℕ)
    → Database.close a (as_manager (at_state cfg db used n))
      ≡ as_result as_error (close a (at_state cfg db used n))
unfolding Database.close close
close_at a cfg none used n = refl
close_at a cfg (some h) used n =
    closing_steps-close_open a.sql_db a.closing
      (record { cfg = cfg; db = some h; once_done = used; opened = n })

connection_of-or_nil :
    (c : SqliteConnected) → Database.connection_of (as_connected c) ≡ as_connection (or_nil c)
connection_of-or_nil (failed e) = refl
connection_of-or_nil (session h) = refl
connection_of-or_nil session_of_nil = refl

exec_one : (exec : Statement → Option String) (s : Statement) → exec_all exec (s ∷ []) ≡ exec s
unfolding exec_all
exec_one exec s = same_error (exec s)
  where
    same_error : (r : Option String) → elim r [ some e ↦ some e | none ↦ none ] ≡ r
    same_error none = refl
    same_error (some e) = refl

abbrev pub as_checkpointed :
    SqliteConnected × Option SqliteFailure → Option (Connected × Option Failure)
as_checkpointed (c, err) = some (as_connected c, as_error err)

checkpointed :
    (h : ℕ) (x y : Option String)
    → x ≡ y
    → ◌≡◌ {A = Option (Connected × Option Failure)}
        (some (
          Database.session h,
          elim x [ none ↦ none | some e ↦ some (Database.checkpoint_failed e) ],
        ))
        (as_checkpointed (session h, elim y [ none ↦ none | some e ↦ some (checkpoint_failed e) ]))
checkpointed h none none p = refl
checkpointed h (some e) (some f) p = ground (arith, p)
checkpointed h none (some f) p = absurd (ground (arith, p))
checkpointed h (some e) none p = absurd (ground (arith, p))

checkpoint_on-same :
    (a : Answers) (mode : String) (c : SqliteConnected)
    → some (Database.checkpoint_on sqlite_driver a.exec mode (as_connected c))
      ≡ as_checkpointed (checkpoint_with a.exec mode c)
checkpoint_on-same a mode (failed e) = refl
checkpoint_on-same a mode session_of_nil = refl
checkpoint_on-same a mode (session h) = checkpointed h _ _ (exec_one a.exec (wal_checkpoint mode))

-- On the manager of package database with the SQLite driver and the same configuration, connection
-- and once, each method of the SQLite manager gives the same session or nil, or an error of the same
-- step with the same cause, and leaves the manager in the same state, whatever GORM and the database
-- answer. The texts around the causes differ: those of the two packages. The passive checkpoint that
-- the driver runs first in Close, and whose error is dropped, is no part of this.
pub methods-same :
    (a : Answers) (mode : String) (m : SqliteManager)
    → (Database.connect a (as_manager m) ≡ as_result as_connected (connect a m))
      × (Database.get_connection a (as_manager m) ≡ as_result as_connection (get_connection a m))
      × (Database.close a (as_manager m) ≡ as_result as_error (close a m))
      × (Database.checkpoint_wal a mode (as_manager m)
          ≡ as_result as_checkpointed (checkpoint_wal a mode m))
unfolding Database.get_connection get_connection Database.checkpoint_wal checkpoint_wal
methods-same a mode m =
    let c = connect-connect a m in
    (
      c,
      ap (λ r. (r.0, Database.connection_of r.1)) c
          ∙ ap (λ x. (as_manager (connect a m).0, x)) (connection_of-or_nil (connect a m).1),
      close_at a m.cfg m.db m.once_done m.opened,
      ap (λ r. (r.0, some (Database.checkpoint_on sqlite_driver a.exec mode r.1))) c
          ∙ ap (λ x. (as_manager (connect a m).0, x)) (checkpoint_on-same a mode (connect a m).1),
    )
