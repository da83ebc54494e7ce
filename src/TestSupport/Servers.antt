-- ===== src/TestSupport/Servers.antt =====
-- testsupport/server.go: when NewTestServer fails, and servers without middleware.
use cartridge.Prelude.{
  ℕ, ◌≡◌, ◌↔◌, refl, ap, ◌∙◌, arith, String, Bool, true, false, Option, none, some, List, [], ◌∷◌,
  inl, inr, subst, sym,
}
use cartridge.Middleware.RequestLogger.{Next, Exchange}
use cartridge.Server.{ServerConfig, Server, new_server, fresh_server, setup_global_middleware}
use cartridge.Server.Errors.{HandlerError}
use cartridge.Server.Requests.{FiberMiddleware, globals, through}
use cartridge.Server.Requests.Silent.{setup-IsSilent}
use cartridge.Server.Setup.{complete-new_server}
use cartridge.Server.Routes.{RouteConfig, sec_fetch_handlers}
use cartridge.TestSupport.{
  DbAnswers, Fatal, TestDbOptions, TestDbManager, TestServerOptions, setup_test_db,
  new_test_db_manager, new_test_config, test_server_config, without_middleware, runtime_of, mounted,
  made, new_test_server, given_or_default,
}

-- The database of a test server.
abbrev pub test_database : TestServerOptions → List TestDbOptions
test_database options = record { models = options.models; verbose = false } ∷ []

without_middleware-dependencies :
    (b : Bool) (cfg : ServerConfig)
    → ((without_middleware b cfg).config ≡ cfg.config)
      × ((without_middleware b cfg).logger ≡ cfg.logger)
      × ((without_middleware b cfg).db_manager ≡ cfg.db_manager)
without_middleware-dependencies true cfg = (refl, refl, refl)
without_middleware-dependencies false cfg = (refl, refl, refl)

module _ (logger : ℕ) (on_disk : Option (List (String × Bool))) where
  -- The server itself is always made.
  new_server_made :
      (options : TestServerOptions) (m : TestDbManager)
      → new_server (some (test_server_config options logger m)) on_disk
        ≡ inr (
            fresh_server (test_server_config options logger m) on_disk (runtime_of new_test_config))
  unfolding test_server_config
  new_server_made options m =
      let (c, l, d) = without_middleware-dependencies options.disable_middleware _ in
      complete-new_server (test_server_config options logger m) (runtime_of new_test_config) on_disk
        _ (record { given = refl; has_config = c; has_logger = (_, l); has_db_manager = (_, d) })

  made_failed :
      (options : TestServerOptions) (m : TestDbManager) (failed : Option Fatal) (s : Server)
      (f : Fatal)
      → (made options m logger failed (inr s) ≡ inl f) ↔ (failed ≡ some f)
  made_failed options m none s f =
      (λ h. absurd (ground (arith, h)), λ h. absurd (ground (arith, h)))
  made_failed options m (some g) s f = (λ h. ground (arith, h), λ h. ground (arith, h))

  new_test_server-made :
      (a : DbAnswers) (db : ℕ) (options : TestServerOptions)
      → new_test_server a db logger on_disk (options ∷ []) ≡ (
        (setup_test_db a (test_database options)).0,
        made options (new_test_db_manager db) logger (setup_test_db a (test_database options)).1 (
            inr (
              fresh_server
                (test_server_config options logger (new_test_db_manager db))
                on_disk
                (runtime_of new_test_config))),
      )
  unfolding new_test_server
  new_test_server-made a db options =
      let calls = setup_test_db a (test_database options) in
      let m = new_test_db_manager db in
      ap (λ s. (calls.0, made options m logger calls.1 s)) (new_server_made options m)

  -- NewTestServer ends the test exactly when opening the test database, a pragma or the migration
  -- fails, and with that failure: making the server itself never fails.
  pub new_test_server-inl_iff :
      (a : DbAnswers) (db : ℕ) (options : TestServerOptions) (f : Fatal)
      → ((new_test_server a db logger on_disk (options ∷ [])).1 ≡ inl f)
        ↔ ((setup_test_db a (test_database options)).1 ≡ some f)
  new_test_server-inl_iff a db options f =
      subst (λ r. (r.1 ≡ inl f) ↔ ((setup_test_db a (test_database options)).1 ≡ some f))
        (sym (new_test_server-made a db options))
        (made_failed options (new_test_db_manager db) _ _ f)

  disabled_flags :
      (options : TestServerOptions) (m : TestDbManager)
      → options.disable_middleware ≡ true
      → let cfg = test_server_config options logger m in
        (cfg.enable_request_logger ≡ false) × (cfg.enable_sec_fetch_site ≡ false)
  unfolding test_server_config
  disabled_flags options m d =
      let given = record (given_or_default options.server_config) {
        config = some (runtime_of new_test_config);
        logger = some logger;
        db_manager = some m.db;
      } in
      (
        ap (λ b. (without_middleware b given).enable_request_logger) d,
        ap (λ b. (without_middleware b given).enable_sec_fetch_site) d,
      )

  unchecked :
      (cfg : ServerConfig)
      → cfg.enable_sec_fetch_site ≡ false
      → (rc : Option RouteConfig) → sec_fetch_handlers cfg rc ≡ []
  unfolding sec_fetch_handlers
  unchecked cfg h rc = rw h refl

  -- Where the database is set up and DisableMiddleware is set, whatever the given configuration, the
  -- test server is a server that the options' mount function was then applied to; no route that it
  -- registers begins with the Sec-Fetch-Site check, and its middleware logs no request.
  pub new_test_server_quiet :
      (fiber : FiberMiddleware) (a : DbAnswers) (db : ℕ) (options : TestServerOptions)
      → (setup_test_db a (test_database options)).1 ≡ none
      → options.disable_middleware ≡ true
      → (s : Server) × ((new_test_server a db logger on_disk (options ∷ [])).1
          ≡ inr (record {
            server = mounted options.mount s;
            db = new_test_db_manager db;
            logger = logger;
            config = new_test_config;
          }))
        × ((rc : Option RouteConfig) → sec_fetch_handlers s.cfg rc ≡ [])
        × ((x : Exchange) (n : Next HandlerError)
            → (through fiber x (globals (setup_global_middleware s.cfg)) (n, [])).1 ≡ [])
  new_test_server_quiet fiber a db options ok d =
      let m = new_test_db_manager db in
      let cfg = test_server_config options logger m in
      let s = fresh_server cfg on_disk (runtime_of new_test_config) in
      let (unlogged, open_routes) = disabled_flags options m d in
      (
        s,
        ap (λ r. r.1) (new_test_server-made a db options)
            ∙ ap (λ e. made options m logger e (inr s)) ok,
        λ rc. unchecked cfg open_routes rc,
        λ x n. setup-IsSilent fiber cfg x unlogged (n, []),
      )
