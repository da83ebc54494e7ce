-- ===== src/TestSupport/Tests.antt =====
-- Test servers on an in-memory database.
use cartridge.Prelude.{
  ◌≡◌, refl, ℕ, String, true, false, none, some, [], ◌∷◌, ◌==◌, string_comparable, if◌then◌else◌,
  inl, inr, ◌⊎◌,
}
use cartridge.Server.{default_server_config}
use cartridge.TestSupport.{
  DbAnswers, opens, executes, migrates, closes_at_end, pragma_failed, request_failed,
  TestServerOptions, setup_test_db, apply_pragmas, migrate_models, new_test_db_manager, TestRequest,
  request, post, get_connection, connect,
}
use cartridge.TestSupport.Servers.{test_database}

program : Unit {0}
unfolding setup_test_db apply_pragmas migrate_models new_test_db_manager get_connection connect
    request post default_server_config
program = tt

abbrev well : DbAnswers
well = record { opening = none; exec = λ q. none; migrating = λ ms. none }

abbrev no_wal : DbAnswers
no_wal = record well {
  exec = λ q. if q == "PRAGMA journal_mode = WAL" then some "disk I/O error" else none;
}

abbrev options : TestServerOptions
options = record {
  models = 7 ∷ 9 ∷ [];
  mount = none;
  server_config = some default_server_config;
  disable_middleware = true;
}

set_up : setup_test_db well (test_database options) ≡ (
  opens ":memory:" false
      ∷ executes "PRAGMA foreign_keys = ON"
      ∷ executes "PRAGMA journal_mode = WAL"
      ∷ migrates (7 ∷ 9 ∷ [])
      ∷ closes_at_end
      ∷ [],
  none,
)
unfolding program
set_up = refl

-- Behind a failed pragma nothing is migrated, and no cleanup is registered.
not_set_up : setup_test_db no_wal (test_database options) ≡ (
  opens ":memory:" false
      ∷ executes "PRAGMA foreign_keys = ON"
      ∷ executes "PRAGMA journal_mode = WAL"
      ∷ [],
  some (pragma_failed "PRAGMA journal_mode = WAL" "disk I/O error"),
)
unfolding program
not_set_up = refl

same_database : connect (new_test_db_manager 4) ≡ inr (get_connection (new_test_db_manager 4))
unfolding program
same_database = refl

abbrev no_app : TestRequest → String ⊎ ℕ
no_app r = if r.content_type == "application/json" then inl "EOF" else inr 200

posts : post no_app "/items" "{}" ≡ inl (request_failed "EOF")
unfolding program
posts = refl
