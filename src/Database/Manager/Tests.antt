-- ===== src/Database/Manager/Tests.antt =====
-- Runs of a connection manager, and its theorems at concrete inputs.
use cartridge.Prelude.{ℕ, ◌<◌, ◌≡◌, refl, has_part, none, some, [], ◌∷◌}
use cartridge.Database.Driver.{
  sqlite_driver, default_config, exec_all, sqlite_pragmas, postgres_configure_dsn,
  sqlite_configure_dsn,
}
use cartridge.Database.Manager.{
  Answers, Manager, open_failed, session, session_of_nil, new_manager, connect, close,
}
use cartridge.Database.Manager.Once.{
  connects, get_connections, closes, step, run, is_close, failed_connect-connect,
}
use cartridge.Database.Manager.Reopen.{close-connect}

program : Unit {0}
unfolding new_manager connect close exec_all run step is_close has_part default_config
    sqlite_pragmas sqlite_configure_dsn postgres_configure_dsn
program = tt

-- No error, and a database file that cannot be opened.
abbrev well : Answers
well = record { opening = λ dsn. none; exec = λ s. none; sql_db = none; closing = none }

abbrev no_file : Answers
no_file = record {
  opening = λ dsn. some "unable to open database file";
  exec = λ s. none;
  sql_db = none;
  closing = none;
}

abbrev fresh_manager : Manager
fresh_manager = new_manager sqlite_driver (some (default_config "storage/app.db"))

-- The options go after a `?`, also when the DSN has one.
sqlite_dsn :
    sqlite_configure_dsn "app.db?mode=ro" (default_config "") ≡ "app.db?mode=ro?_txlock=immediate"
unfolding program
sqlite_dsn = refl

postgres_dsn :
    postgres_configure_dsn "postgres://db/app?x=1" (default_config "")
    ≡ "postgres://db/app?x=1&sslmode=prefer&TimeZone=UTC"
unfolding program
postgres_dsn = refl

failed_connect-connect_example :
    (connect well
      (run (closes well ∷ get_connections well ∷ []) (connect no_file fresh_manager).0)).1
    ≡ session_of_nil
unfolding program
failed_connect-connect_example =
    failed_connect-connect no_file fresh_manager (open_failed "unable to open database file")
      (closes well ∷ get_connections well ∷ []) well refl

abbrev second : Manager
second = run (connects well ∷ closes well ∷ connects well ∷ []) fresh_manager

close-connect_example : (k : ℕ) × ((connect well (close well second).0).1 ≡ session k) × (1 < k)
unfolding program
close-connect_example =
    close-connect sqlite_driver (some (default_config "storage/app.db"))
      (connects well ∷ closes well ∷ connects well ∷ []) well well 1 refl refl refl
