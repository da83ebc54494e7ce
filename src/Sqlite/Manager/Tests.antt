-- ===== src/Sqlite/Manager/Tests.antt =====
-- Runs of an SQLite manager, and its theorems at concrete configurations.
use cartridge.Prelude.Int.{pos, negsuc}
use cartridge.Prelude.{◌≡◌, refl, false, none, some}
use cartridge.Database.Driver.{exec_all, sqlite_pragmas}
use cartridge.Database.Manager.{Answers}
use cartridge.Database.Manager as Database
use cartridge.Sqlite.Manager.{
  pragma_failed, failed, session_of_nil, SqliteConfig, SqliteManager, with_defaults,
  new_sqlite_manager, dsn_of, apply_pragmas, open_path, connect, get_connection, close,
  checkpoint_wal,
}
use cartridge.Sqlite.Manager.Pluggable.{
  as_manager, as_result, as_connected, as_connection, as_error, as_checkpointed, methods-same,
}

program : Unit {0}
unfolding with_defaults new_sqlite_manager dsn_of apply_pragmas open_path connect exec_all
    sqlite_pragmas
program = tt

abbrev off : SqliteConfig
off = record {
  path = "app.db";
  max_open_conns = negsuc 4;
  max_idle_conns = pos 3;
  conn_max_lifetime = pos 0;
  busy_timeout = pos 0;
  enable_wal = false;
  tx_immediate = false;
}

abbrev no_pragma : Answers
no_pragma = record {
  opening = λ dsn. none;
  exec = λ s. some "disk I/O error";
  sql_db = none;
  closing = none;
}

abbrev well : Answers
well = record { opening = λ dsn. none; exec = λ s. none; sql_db = none; closing = none }

pragma_fails :
    (connect no_pragma (new_sqlite_manager off)).1 ≡ failed (pragma_failed "disk I/O error")
unfolding program
pragma_fails = refl

-- After a failed attempt Connect has no error and no database.
second_attempt : (connect well (connect no_pragma (new_sqlite_manager off)).0).1 ≡ session_of_nil
unfolding program
second_attempt = refl

abbrev fresh_one : SqliteManager
fresh_one = new_sqlite_manager off

methods-same_example :
    (Database.connect well (as_manager fresh_one) ≡ as_result as_connected (connect well fresh_one))
    × (Database.get_connection well (as_manager fresh_one)
        ≡ as_result as_connection (get_connection well fresh_one))
    × (Database.close well (as_manager fresh_one) ≡ as_result as_error (close well fresh_one))
    × (Database.checkpoint_wal well "FULL" (as_manager fresh_one)
        ≡ as_result as_checkpointed (checkpoint_wal well "FULL" fresh_one))
methods-same_example = methods-same well "FULL" fresh_one
