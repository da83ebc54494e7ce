-- ===== src/Sqlite/Manager/Settings.antt =====
-- The settings of a new SQLite manager.
use Prim.Native.String.{◌++◌}
use cartridge.Prelude.Int.{ℤ, pos, ◌<ℤ◌}
use cartridge.Prelude.{◌≡◌, refl, arith, Bool, true, false, if◌then◌else◌, not, ap}
use cartridge.Sqlite.Manager.{SqliteConfig, positive_or, with_defaults, dsn_of, new_sqlite_manager}

positive_or-positive : (d n : ℤ) → pos 0 <ℤ d → pos 0 <ℤ positive_or d n
positive_or-positive d n h = ground arith

always_true : (b : Bool) → (if not b then true else b) ≡ true
always_true true = refl
always_true false = refl

-- Whatever the configuration, a new manager uses WAL mode and immediate transactions, also where
-- the configuration sets them to false, allows at least one connection, open or idle, and waits
-- for a lock at least a millisecond.
pub new_sqlite_manager-settings :
    (cfg : SqliteConfig)
    → ((new_sqlite_manager cfg).cfg.enable_wal ≡ true)
      × (dsn_of (new_sqlite_manager cfg).cfg ≡ cfg.path ++ "?_txlock=immediate")
      × (pos 0 <ℤ (new_sqlite_manager cfg).cfg.max_open_conns)
      × (pos 0 <ℤ (new_sqlite_manager cfg).cfg.max_idle_conns)
      × (pos 0 <ℤ (new_sqlite_manager cfg).cfg.busy_timeout)
unfolding new_sqlite_manager with_defaults dsn_of
new_sqlite_manager-settings cfg = (
  always_true cfg.enable_wal,
  ap (λ b. if b then cfg.path ++ "?_txlock=immediate" else cfg.path) (always_true cfg.tx_immediate),
  positive_or-positive (pos 1) cfg.max_open_conns (omega arith),
  positive_or-positive (pos 1) cfg.max_idle_conns (omega arith),
  positive_or-positive (pos 5000) cfg.busy_timeout (omega arith),
)
