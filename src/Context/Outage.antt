-- ===== src/Context/Outage.antt =====
-- Requests after a first connection that failed.
use cartridge.Prelude.{
  ℕ, ◌≡◌, refl, ap, ◌∙◌, arith, String, Bool, true, false, Option, none, some, List, [], ◌∷◌, All,
  if◌then◌else◌, subst, sym,
}
use cartridge.Database.Manager.{Answers}
use cartridge.Sqlite.Manager.{
  SqliteFailure, SqliteConnected, session_of_nil, SqliteConfig, SqliteManager, new_sqlite_manager,
  open_path, opening_steps, connected, or_nil, connect, get_connection,
}
use cartridge.Middleware.Chain.{Request}
use cartridge.Middleware.RequestLogger.{Panic, Next, panics, returns, Exchange}
use cartridge.Server.{Server, setup_global_middleware}
use cartridge.Server.Errors.{
  HandlerError, create_default_error_handler, create_default_error_handler-status, status_of,
}
use cartridge.Server.Requests.{
  FiberMiddleware, globals, through, answered, through_setup, panic_made, recovered_made,
}
use cartridge.Context.{
  Context, DbSession, opened, panics_with, kept, get_db, HandlerFunc, fresh_context, wrap_handler,
  requests, connection_failed, nil_dereference,
}

-- A handler that begins with DB, and goes on with the connection that it gives.
abbrev pub goes_on : (ℕ → Next HandlerError) → Context × DbSession → Context × Next HandlerError
goes_on k (ctx, opened h) = (ctx, k h)
goes_on k (ctx, panics_with m) = (ctx, panics m 200)

unfoldable pub using_db : (ℕ → Next HandlerError) → HandlerFunc
using_db k a ctx = goes_on k (get_db a ctx)

-- The sync.Once is used up, without a connection.
abbrev IsStuck : SqliteManager → Type 0
IsStuck m = (m.once_done ≡ true) × (m.db ≡ none)

IsStuck-get_connection :
    (b : Answers) (m : SqliteManager) → IsStuck m → get_connection b m ≡ (m, some session_of_nil)
unfolding get_connection
IsStuck-get_connection b m (o, d) = ground arith

opening_fails :
    (p q r : Option String) (m : SqliteManager) (f : SqliteFailure)
    → (opening_steps p q r m).1 ≡ some f
    → opening_steps p q r m ≡ (m, some f)
opening_fails (some e) q r m f h = ground (arith, h)
opening_fails none (some e) r m f h = ground (arith, h)
opening_fails none none (some e) m f h = ground (arith, h)
opening_fails none none none m f h = absurd (ground (arith, h))

-- GetConnection behind its open.
abbrev once_of :
    Bool
    → SqliteManager
    → SqliteManager × Option SqliteFailure
    → SqliteManager × Option SqliteConnected
once_of b m (m', err) =
    let (m'', c) =
      if b
      then (m, connected m.db none)
      else (record m' { once_done = true }, connected m'.db err) in
    (m'', or_nil c)

failed_open :
    (a : Answers) (m : SqliteManager) (f : SqliteFailure)
    → m.once_done ≡ false
    → open_path a m ≡ (m, some f)
    → get_connection a m ≡ (record m { once_done = true }, none)
unfolding get_connection connect
failed_open a m f o h = ap (once_of m.once_done m) h ∙ ap (λ b. once_of b m (m, some f)) o

-- The first connection fails: the manager is stuck.
first_fails :
    (a : Answers) (cfg : SqliteConfig) (f : SqliteFailure)
    → (open_path a (new_sqlite_manager cfg)).1 ≡ some f
    → get_connection a (new_sqlite_manager cfg)
      ≡ (record (new_sqlite_manager cfg) { once_done = true }, none)
unfolding open_path new_sqlite_manager
first_fails a cfg f h =
    failed_open a (new_sqlite_manager cfg) f refl (opening_fails _ _ _ (new_sqlite_manager cfg) f h)

module _ (s : Server) (k : ℕ → Next HandlerError) where
  abbrev behind_connection :
      SqliteManager → SqliteManager × Option SqliteConnected → SqliteManager × Next HandlerError
  behind_connection m p =
      let (ctx, n) = goes_on k (kept (fresh_context s m) p) in (ctx.db_manager, n)

  wrapped :
      (a : Answers) (m : SqliteManager)
      → wrap_handler s (using_db k) a m ≡ behind_connection m (get_connection a m)
  unfolding wrap_handler using_db get_db
  wrapped a m = refl

  wrapped-IsStuck :
      (b : Answers) (m : SqliteManager)
      → IsStuck m
      → wrap_handler s (using_db k) b m ≡ (m, panics nil_dereference 200)
  unfolding fresh_context
  wrapped-IsStuck b m i = wrapped b m ∙ ap (behind_connection m) (IsStuck-get_connection b m i)

  wrapped-first :
      (a : Answers) (cfg : SqliteConfig) (f : SqliteFailure)
      → (open_path a (new_sqlite_manager cfg)).1 ≡ some f
      → wrap_handler s (using_db k) a (new_sqlite_manager cfg)
        ≡ (record (new_sqlite_manager cfg) { once_done = true }, panics connection_failed 200)
  unfolding fresh_context
  wrapped-first a cfg f h =
      wrapped a (new_sqlite_manager cfg)
      ∙ ap (behind_connection (new_sqlite_manager cfg)) (first_fails a cfg f h)

  requests_after :
      (P : Next HandlerError → Type 0) (a : Answers) (later : List Answers) (m m' : SqliteManager)
      (n : Next HandlerError)
      → wrap_handler s (using_db k) a m ≡ (m', n)
      → P n
      → All P (requests s (using_db k) later m')
      → All P (requests s (using_db k) (a ∷ later) m)
  unfolding requests
  requests_after P a later m m' n e p ps =
      subst (λ x. All P (x.1 ∷ requests s (using_db k) later x.0)) (sym e) (p, ps)

  requests-IsStuck :
      (P : Next HandlerError → Type 0) (later : List Answers) (m : SqliteManager)
      → IsStuck m
      → P (panics nil_dereference 200)
      → All P (requests s (using_db k) later m)
  unfolding requests
  requests-IsStuck P [] m i p = tt
  requests-IsStuck P (b ∷ later) m i p =
      requests_after P b later m m _ (wrapped-IsStuck b m i) p (requests-IsStuck P later m i p)

  requests-first :
      (P : Next HandlerError → Type 0) (a : Answers) (later : List Answers) (cfg : SqliteConfig)
      (f : SqliteFailure)
      → (open_path a (new_sqlite_manager cfg)).1 ≡ some f
      → P (panics connection_failed 200)
      → P (panics nil_dereference 200)
      → All P (requests s (using_db k) (a ∷ later) (new_sqlite_manager cfg))
  unfolding new_sqlite_manager
  requests-first P a later cfg f h p q =
      requests_after P a later (new_sqlite_manager cfg) _ _ (wrapped-first a cfg f h) p (
        requests-IsStuck P later (record (new_sqlite_manager cfg) { once_done = true }) (refl, refl)
          q)

module _ (fiber : FiberMiddleware) (s : Server) (x : Exchange) (r : Request) where
  -- Answered with status 500, and not in the log.
  abbrev pub IsUnavailable : Next HandlerError → Type 0
  IsUnavailable n =
      let done = through fiber x (globals (setup_global_middleware s.cfg)) (n, []) in
      (answered fiber s.error_handler r done.0 ≡ some 500) × (done.1 ≡ [])

  panics-IsUnavailable :
      (p : Panic HandlerError) (status : ℕ)
      → s.cfg.enable_recover ≡ true
      → s.cfg.enable_request_logger ≡ true
      → s.error_handler ≡ create_default_error_handler
      → status_of (panic_made fiber p) ≡ 500
      → IsUnavailable (panics p status)
  unfolding answered
  panics-IsUnavailable p status rec log own plain =
      let e = through_setup fiber s.cfg x (panics p status) rec log in
      (
        ap (λ q. answered fiber s.error_handler r q.0) e
            ∙ ap (answered fiber s.error_handler r) (recovered_made fiber p status)
            ∙ ap (λ h. answered fiber h r (returns (some (panic_made fiber p)) status)) own
            ∙ ap some (create_default_error_handler-status r (panic_made fiber p) ∙ plain),
        ap (λ q. q.1) e,
      )

  -- On a server that recovers and logs and that was given no error handler of its own, for requests
  -- one after the other whose handlers begin with DB: when opening the database fails at the first
  -- request, that request and every later one are answered with status 500 and are not in the request
  -- log, however the database answers by then.
  pub outage_lasts :
      (k : ℕ → Next HandlerError) (a : Answers) (later : List Answers) (cfg : SqliteConfig)
      (f : SqliteFailure)
      → s.cfg.enable_recover ≡ true
      → s.cfg.enable_request_logger ≡ true
      → s.error_handler ≡ create_default_error_handler
      → (open_path a (new_sqlite_manager cfg)).1 ≡ some f
      → All IsUnavailable (requests s (using_db k) (a ∷ later) (new_sqlite_manager cfg))
  unfolding status_of
  outage_lasts k a later cfg f rec log own h =
      requests-first s k IsUnavailable a later cfg f h
        (panics-IsUnavailable connection_failed 200 rec log own refl)
        (panics-IsUnavailable nil_dereference 200 rec log own refl)
