-- ===== src/Server/Requests.antt =====
-- server.go: a request on its way back through the global middleware, and what Fiber answers. The
-- middleware of Fiber's own and the text that its recover makes of a panic are parameters.
pub mod Silent
use cartridge.Prelude.{
  ℕ, ◌≡◌, refl, ap, ◌∙◌, arith, String, Bool, true, false, Option, none, some, List, [], ◌∷◌, ◌++◌,
  has_prefix,
}
use cartridge.Middleware.Chain.{Request}
use cartridge.Middleware.RequestLogger.{
  Panic, panic_error, panic_value, Next, returns, panics, Exchange, RequestEntry, entries_of,
  request_logger as log_request,
}
use cartridge.Server.{
  ServerConfig, Runtime, Global, request_id, recover, helmet, compress, request_logger,
  Registration, uses, setup_global_middleware, use_if, fresh_server, error_handler_or_default,
}
use cartridge.Server.Errors.{
  ErrorHandler, HandlerError, other, status_of, status, create_default_error_handler,
  create_default_error_handler-status,
}

-- The global middleware among the registrations, outermost first.
abbrev pub globals : List Registration → List Global
globals [] = []
globals (uses g ∷ rs) = g ∷ globals rs
globals (_ ∷ rs) = globals rs

-- Fiber's middleware, by what it makes of the next handlers' error and status: it sets headers and
-- compresses the body, and keeps both. `text` is the message of the error that its recover makes of a
-- panic's value that is no error.
pub record FiberMiddleware : Type 0 where
  pub around : Next HandlerError → Next HandlerError
  pub text : String → String
  pub keeps : (n : Next HandlerError) → around n ≡ n

module _ (fiber : FiberMiddleware) where
  abbrev pub recovered : Next HandlerError → Next HandlerError
  recovered (returns err s) = returns err s
  recovered (panics (panic_error e) s) = returns (some e) s
  recovered (panics (panic_value m) s) = returns (some (other (fiber.text m))) s

  -- The error that recover hands on.
  abbrev pub panic_made : Panic HandlerError → HandlerError
  panic_made (panic_error e) = e
  panic_made (panic_value m) = other (fiber.text m)

  pub recovered_made :
      (p : Panic HandlerError) (s : ℕ) → recovered (panics p s) ≡ returns (some (panic_made p)) s
  recovered_made (panic_error e) s = refl
  recovered_made (panic_value m) s = refl

  -- One middleware around what is inside it, with the entries written so far.
  unfoldable pub pass :
      Exchange
      → Global
      → Next HandlerError × List RequestEntry
      → Next HandlerError × List RequestEntry
  pass x request_id (n, es) = (fiber.around n, es)
  pass x recover (n, es) = (recovered n, es)
  pass x helmet (n, es) = (fiber.around n, es)
  pass x compress (n, es) = (fiber.around n, es)
  pass x request_logger (n, es) = let (n', more) = log_request x n in (n', es ++ more)

  unfoldable pub through :
      Exchange
      → List Global
      → Next HandlerError × List RequestEntry
      → Next HandlerError × List RequestEntry
  unfolding pass
  through x [] p = p
  through x (g ∷ gs) p = pass x g (through x gs p)

  -- The status of Fiber's answer, with the error handler of its application; `none` where a panic
  -- leaves Fiber.
  unfoldable pub answered : ErrorHandler → Request → Next HandlerError → Option ℕ
  answered handler r (returns none s) = some s
  answered handler r (returns (some e) s) = some (status (handler r e))
  answered handler r (panics m s) = none

  -- What is written of a request.
  abbrev pub written : Exchange → Next HandlerError → List RequestEntry
  written x (returns err s) = entries_of x s
  written x (panics m s) = []

  through-append :
      (x : Exchange) (rs ts : List Registration) (p : Next HandlerError × List RequestEntry)
      → through x (globals (rs ++ ts)) p ≡ through x (globals rs) (through x (globals ts) p)
  unfolding through
  through-append x [] ts p = refl
  through-append x (uses g ∷ rs) ts p = ap (pass x g) (through-append x rs ts p)
  through-append x (_ ∷ rs) ts p = through-append x rs ts p

  behind :
      (x : Exchange) (rs ts : List Registration) (p q : Next HandlerError × List RequestEntry)
      → through x (globals ts) p ≡ q
      → through x (globals (rs ++ ts)) p ≡ through x (globals rs) q
  behind x rs ts p q h = through-append x rs ts p ∙ ap (through x (globals rs)) h

  -- Middleware of Fiber's own, enabled or not.
  through-kept :
      (x : Exchange) (g : Global) (b : Bool) (p : Next HandlerError × List RequestEntry)
      → ((q : Next HandlerError × List RequestEntry) → pass x g q ≡ (fiber.around q.0, q.1))
      → through x (globals (use_if b g)) p ≡ p
  unfolding through use_if
  through-kept x g true p h = h p ∙ ap (λ n. (n, p.1)) (fiber.keeps p.0)
  through-kept x g false p h = refl

  through_on :
      (x : Exchange) (g : Global) (b : Bool) (p : Next HandlerError × List RequestEntry)
      → b ≡ true
      → through x (globals (use_if b g)) p ≡ pass x g p
  unfolding through use_if
  through_on x g true p h = refl
  through_on x g false p h = absurd (ground (arith, h))

  written-pass :
      (x : Exchange) (n : Next HandlerError)
      → pass x recover (pass x request_logger (n, [])) ≡ (recovered n, written x n)
  unfolding pass log_request
  written-pass x (returns err s) = refl
  written-pass x (panics m s) = refl

  pub through_setup :
      (cfg : ServerConfig) (x : Exchange) (n : Next HandlerError)
      → cfg.enable_recover ≡ true
      → cfg.enable_request_logger ≡ true
      → through x (globals (setup_global_middleware cfg)) (n, []) ≡ (recovered n, written x n)
  unfolding setup_global_middleware pass
  through_setup cfg x n rec log =
      let p = pass x request_logger (n, []) in
      let logs = use_if cfg.enable_request_logger request_logger in
      let compresses = use_if cfg.enable_compress compress in
      let guards = use_if cfg.enable_helmet helmet in
      let recovers = use_if cfg.enable_recover recover in
      let ids = use_if cfg.enable_request_id request_id in
      behind x (ids ++ recovers ++ guards ++ compresses) logs (n, []) p
        (through_on x request_logger cfg.enable_request_logger (n, []) log)
      ∙ behind x (ids ++ recovers ++ guards) compresses p p
          (through-kept x compress cfg.enable_compress p (λ q. refl))
      ∙ behind x (ids ++ recovers) guards p p
          (through-kept x helmet cfg.enable_helmet p (λ q. refl))
      ∙ behind x ids recovers p (pass x recover p) (through_on x recover cfg.enable_recover p rec)
      ∙ through-kept x request_id cfg.enable_request_id (pass x recover p) (λ q. refl)
      ∙ written-pass x n

  -- The status that an error is answered with: by the configured error handler, else the error's.
  abbrev pub status_for : Option ErrorHandler → Request → HandlerError → ℕ
  status_for none r e = status_of e
  status_for (some handler) r e = status (handler r e)

  pub status-error_handler :
      (handler : Option ErrorHandler) (r : Request) (e : HandlerError)
      → status (error_handler_or_default handler r e) ≡ status_for handler r e
  status-error_handler none r e = create_default_error_handler-status r e
  status-error_handler (some handler) r e = refl

  -- The server that NewServer makes of a configuration with recovery and logging, and a path that is
  -- not that of a health check: a request whose handler returns an error gets one entry, with the
  -- status from before the error handler ran; a request whose handler panics gets none. Both are
  -- answered with the status that the configured error handler gives to the error, or, with none
  -- configured, with the code of a *fiber.Error and with 500 for any other error. The error of a panic
  -- is its value, a *fiber.Error too, where that is an error, and an error of recover's, no
  -- *fiber.Error, where it is not.
  pub failed_request :
      (cfg : ServerConfig) (on_disk : Option (List (String × Bool))) (config : Runtime)
      (x : Exchange) (r : Request) (e : HandlerError) (p : Panic HandlerError) (s : ℕ)
      → cfg.enable_recover ≡ true
      → cfg.enable_request_logger ≡ true
      → has_prefix x.path "/_health" ≡ false
      → let gs = globals (setup_global_middleware cfg) in
        let handler = (fresh_server cfg on_disk config).error_handler in
        let failed = through x gs (returns (some e) s, []) in
        let panicked = through x gs (panics p s, []) in
        (failed.1
          ≡ record {
            method = x.method;
            path = x.path;
            status = s;
            duration = x.duration;
            ip = x.ip;
          }
            ∷ [])
        × (answered handler r failed.0 ≡ some (status_for cfg.error_handler r e))
        × (panicked.1 ≡ [])
        × (answered handler r panicked.0 ≡ some (status_for cfg.error_handler r (panic_made p)))
  unfolding entries_of answered
  failed_request cfg on_disk config x r e p s rec log h =
      let handler = error_handler_or_default cfg.error_handler in
      let failed = through_setup cfg x (returns (some e) s) rec log in
      let panicked = through_setup cfg x (panics p s) rec log in
      (
        ap (λ q. q.1) failed ∙ (rw h refl),
        ap (λ q. answered handler r q.0) failed
            ∙ ap some (status-error_handler cfg.error_handler r e),
        ap (λ q. q.1) panicked,
        ap (λ q. answered handler r q.0) panicked
            ∙ ap (answered handler r) (recovered_made p s)
            ∙ ap some (status-error_handler cfg.error_handler r (panic_made p)),
      )
