-- ===== src/Server/Requests/Silent.antt =====
-- server.go: a server without the request logger.
use cartridge.Prelude.{◌≡◌, refl, ap, ◌∙◌, arith, Bool, true, false, List, ◌++◌}
use cartridge.Middleware.RequestLogger.{Next, Exchange, RequestEntry}
use cartridge.Server.{
  ServerConfig, Global, request_id, recover, helmet, compress, request_logger, Registration,
  setup_global_middleware, use_if,
}
use cartridge.Server.Errors.{HandlerError}
use cartridge.Server.Requests.{FiberMiddleware, globals, pass, through, through-append}

module _ (fiber : FiberMiddleware) where
  -- Registrations behind which no entry is written.
  abbrev pub IsSilent : Exchange → List Registration → Type 0
  IsSilent x rs =
      (p : Next HandlerError × List RequestEntry) → (through fiber x (globals rs) p).1 ≡ p.1

  append-IsSilent :
      (x : Exchange) (rs ts : List Registration)
      → IsSilent x rs
      → IsSilent x ts
      → IsSilent x (rs ++ ts)
  append-IsSilent x rs ts f g p =
      ap (λ q. q.1) (through-append fiber x rs ts p) ∙ f (through fiber x (globals ts) p) ∙ g p

  use_if-IsSilent :
      (x : Exchange) (g : Global) (b : Bool)
      → ((q : Next HandlerError × List RequestEntry) → (pass fiber x g q).1 ≡ q.1)
      → IsSilent x (use_if b g)
  unfolding through use_if
  use_if-IsSilent x g true h p = h p
  use_if-IsSilent x g false h p = refl

  off-IsSilent : (x : Exchange) (g : Global) (b : Bool) → b ≡ false → IsSilent x (use_if b g)
  unfolding through use_if
  off-IsSilent x g true h p = absurd (ground (arith, h))
  off-IsSilent x g false h p = refl

  -- A server without the request logger writes nothing of a request.
  pub setup-IsSilent :
      (cfg : ServerConfig) (x : Exchange)
      → cfg.enable_request_logger ≡ false
      → IsSilent x (setup_global_middleware cfg)
  unfolding setup_global_middleware pass
  setup-IsSilent cfg x off =
      let ids = use_if cfg.enable_request_id request_id in
      let recovers = use_if cfg.enable_recover recover in
      let guards = use_if cfg.enable_helmet helmet in
      let compresses = use_if cfg.enable_compress compress in
      let logs = use_if cfg.enable_request_logger request_logger in
      let two =
        append-IsSilent x ids recovers
          (use_if-IsSilent x request_id cfg.enable_request_id (λ q. refl))
          (use_if-IsSilent x recover cfg.enable_recover (λ q. refl)) in
      let three =
        append-IsSilent x (ids ++ recovers) guards two
          (use_if-IsSilent x helmet cfg.enable_helmet (λ q. refl)) in
      let four =
        append-IsSilent x (ids ++ recovers ++ guards) compresses three
          (use_if-IsSilent x compress cfg.enable_compress (λ q. refl)) in
      append-IsSilent x (ids ++ recovers ++ guards ++ compresses) logs four
        (off-IsSilent x request_logger cfg.enable_request_logger off)
