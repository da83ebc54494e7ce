-- ===== src/Context.antt =====
-- context.go, and wrapHandler of server.go: the context of a request and its database session, over
-- the manager of sqlite/manager.go. Attaching the request's context to the session is GORM's.
pub mod Outage
mod Tests
use cartridge.Prelude.{ℕ, ◌≡◌, refl, String, Option, none, some, List, [], ◌∷◌, arith}
use cartridge.Database.Manager.{Answers}
use cartridge.Sqlite.Manager.{
  SqliteConnected, session, failed, session_of_nil, SqliteManager, get_connection,
}
use cartridge.Middleware.RequestLogger.{Panic, panic_error, panic_value, Next, returns, panics}
use cartridge.Server.{Server, Runtime}
use cartridge.Server.Errors.{HandlerError, other}

-- The request itself is Fiber's. Loggers and session managers are numbers, sessions of the database
-- the handles of their connections.
pub record Context : Type 0 where
  pub logger : Option ℕ
  pub config : Option Runtime
  pub db_manager : SqliteManager
  pub session_manager : Option ℕ
  pub db : Option ℕ

-- What DB gives: a session, or the panic that the recover middleware catches.
pub data DbSession : Type 0 where
  opened : ℕ → DbSession
  panics_with : Panic HandlerError → DbSession

abbrev pub connection_failed : Panic HandlerError
connection_failed = panic_value "cartridge: database connection failed"

-- GORM's Session on a nil *gorm.DB: a runtime.Error, which is an error and no *fiber.Error.
abbrev pub nil_dereference : Panic HandlerError
nil_dereference =
    panic_error (other "runtime error: invalid memory address or nil pointer dereference")

abbrev pub kept : Context → SqliteManager × Option SqliteConnected → Context × DbSession
kept ctx (m, none) = (record ctx { db_manager = m }, panics_with connection_failed)
kept ctx (m, some (session h)) = (record ctx { db_manager = m; db = some h }, opened h)
kept ctx (m, some (failed e)) = (record ctx { db_manager = m }, panics_with connection_failed)
kept ctx (m, some session_of_nil) = (record ctx { db_manager = m }, panics_with nil_dereference)

abbrev pub cached_or : Option ℕ → Context → Context × DbSession → Context × DbSession
cached_or none ctx fresh = fresh
cached_or (some h) ctx fresh = (ctx, opened h)

unfoldable pub get_db : Answers → Context → Context × DbSession
get_db a ctx = cached_or ctx.db ctx (kept ctx (get_connection a ctx.db_manager))

-- A handler, by what the database answers while it runs.
abbrev pub HandlerFunc : Type 0
HandlerFunc = Answers → Context → Context × Next HandlerError

unfoldable pub fresh_context : Server → SqliteManager → Context
fresh_context s m = record {
  logger = s.cfg.logger;
  config = s.cfg.config;
  db_manager = m;
  session_manager = s.session;
  db = none;
}

-- The manager behind the request, and what the handler gives to the middleware.
unfoldable pub wrap_handler :
    Server → HandlerFunc → Answers → SqliteManager → SqliteManager × Next HandlerError
unfolding fresh_context
wrap_handler s f a m = let (ctx, n) = f a (fresh_context s m) in (ctx.db_manager, n)

-- Requests one after the other, each with its own answers of the database.
unfoldable pub requests :
    Server → HandlerFunc → List Answers → SqliteManager → List (Next HandlerError)
unfolding wrap_handler
requests s f [] m = []
requests s f (a ∷ later) m = let (m', n) = wrap_handler s f a m in n ∷ requests s f later m'

kept_again :
    (ctx : Context) (x : SqliteManager × Option SqliteConnected) (h : ℕ)
    → (kept ctx x).1 ≡ opened h
    → (kept ctx x).0.db ≡ some h
kept_again ctx (m, none) h e = absurd (ground (arith, e))
kept_again ctx (m, some (session k)) h e = ground (arith, e)
kept_again ctx (m, some (failed f)) h e = absurd (ground (arith, e))
kept_again ctx (m, some session_of_nil) h e = absurd (ground (arith, e))

cached_or_again :
    (o : Option ℕ) (ctx : Context) (x : SqliteManager × Option SqliteConnected) (h : ℕ)
    → ctx.db ≡ o
    → (cached_or o ctx (kept ctx x)).1 ≡ opened h
    → (cached_or o ctx (kept ctx x)).0.db ≡ some h
cached_or_again none ctx x h e p = kept_again ctx x h p
cached_or_again (some k) ctx x h e p = ground (arith, e, p)

-- Once DB has given a session in a request, it gives the same one for the rest of the request and
-- leaves the manager alone, whatever the database answers by then.
pub get_db_twice :
    (a b : Answers) (ctx : Context) (h : ℕ)
    → (get_db a ctx).1 ≡ opened h
    → get_db b (get_db a ctx).0 ≡ ((get_db a ctx).0, opened h)
unfolding get_db
get_db_twice a b ctx h p =
    let x = get_connection a ctx.db_manager in
    let again = cached_or_again ctx.db ctx x h refl p in rw again refl
