-- ===== src/Factory/Migrations.antt =====
-- migrations.go, and the migration of an application in factory.go.
use cartridge.Prelude.{
  ℕ, ◌≡◌, refl, String, Bool, true, false, Option, none, some, List, [], ◌∷◌, ◌++◌,
}
use cartridge.Database.Manager.{Answers}
use cartridge.Sqlite.Manager.{
  SqliteConnected, SqliteFailure, session, failed, session_of_nil, SqliteManager, connect,
  checkpoint_wal,
}

-- What a migration does, in order.
pub data MigrationStep : Type 0 where
  migrates checkpoints : MigrationStep

pub data MigrationError : Type 0 where
  connect_failed : SqliteFailure → MigrationError
  migrate_failed : String → MigrationError

abbrev migrated :
    Answers
    → Option String
    → SqliteManager × SqliteConnected
    → SqliteManager × (List MigrationStep × Option MigrationError)
migrated a migrating (m, failed e) = (m, ([], some (connect_failed e)))
migrated a (some e) (m, c) = (m, (migrates ∷ [], some (migrate_failed e)))
migrated a none (m, c) = ((checkpoint_wal a "FULL" m).0, (migrates ∷ checkpoints ∷ [], none))

-- MigrateDatabase; `migrating` is the migrator's error. An error of the checkpoint is only logged.
unfoldable pub migrate_database :
    Answers
    → Option String
    → SqliteManager
    → SqliteManager × (List MigrationStep × Option MigrationError)
migrate_database a migrating m = migrated a migrating (connect a m)

-- AutoMigrator.Migrate: whether it calls GORM, and its error.
unfoldable pub auto_migrate : Option String → List ℕ → Bool × Option String
auto_migrate gorm [] = (false, none)
auto_migrate gorm (model ∷ models) = (true, gorm)

abbrev ran :
    Option String
    → SqliteManager × SqliteConnected
    → SqliteManager × (List MigrationStep × Option MigrationError)
ran migrating (m, failed e) = (m, ([], some (connect_failed e)))
ran none (m, c) = (m, (migrates ∷ [], none))
ran (some e) (m, c) = (m, (migrates ∷ [], some (migrate_failed e)))

unfoldable pub run_migrations :
    Answers
    → Option String
    → SqliteManager
    → SqliteManager × (List MigrationStep × Option MigrationError)
run_migrations a migrating m = ran migrating (connect a m)

-- The step that only MigrateDatabase takes.
abbrev checkpoint_unless : Option MigrationError → List MigrationStep
checkpoint_unless none = checkpoints ∷ []
checkpoint_unless (some e) = []

ran-migrated :
    (a : Answers) (migrating : Option String) (x : SqliteManager × SqliteConnected)
    → let (done, err) = (ran migrating x).1 in
      ((migrated a migrating x).1.1 ≡ err)
      × ((migrated a migrating x).1.0 ≡ done ++ checkpoint_unless err)
ran-migrated a none (m, failed e) = (refl, refl)
ran-migrated a (some p) (m, failed e) = (refl, refl)
ran-migrated a (some p) (m, session h) = (refl, refl)
ran-migrated a (some p) (m, session_of_nil) = (refl, refl)
ran-migrated a none (m, session h) = (refl, refl)
ran-migrated a none (m, session_of_nil) = (refl, refl)

-- RunMigrations and MigrateDatabase fail with the same errors and run the same migrations, and
-- MigrateDatabase checkpoints behind them exactly when there was no error.
pub run_migrations-migrate_database :
    (a : Answers) (migrating : Option String) (m : SqliteManager)
    → let (done, err) = (run_migrations a migrating m).1 in
      ((migrate_database a migrating m).1.1 ≡ err)
      × ((migrate_database a migrating m).1.0 ≡ done ++ checkpoint_unless err)
unfolding run_migrations migrate_database
run_migrations-migrate_database a migrating m = ran-migrated a migrating (connect a m)
