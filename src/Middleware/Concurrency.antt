-- ===== src/Middleware/Concurrency.antt =====
-- middleware/concurrency.go: the limit on concurrent writes. The semaphore is a parameter, by what
-- golang.org/x/sync/semaphore documents of it.
pub mod Requests
pub mod Limiter
use cartridge.Prelude.{
  ℕ, suc, zero, ◌≡◌, ◌≤◌, ◌<◌, String, Bool, true, false, Option, none, some, List, [], ◌∷◌, ◌==◌,
  string_comparable, if◌then◌else◌,
}
use cartridge.Middleware.Chain.{Request, Response, json, Verdict, answer, next, Handler}

-- A weighted semaphore used with weight 1. `grant` is an Acquire that succeeds at once; it gives
-- `none` while nothing is free, where Acquire waits. More releases than grants are a panic.
pub record Semaphore {ℓ} (S : Type ℓ) (limit : ℕ) : Type ℓ where
  pub fresh : S
  pub held : S → ℕ
  pub grant : S → Option S
  pub release : S → S
  pub held-fresh : held fresh ≡ 0
  pub held-grant : (s s' : S) → grant s ≡ some s' → (held s < limit) × (held s' ≡ suc (held s))
  pub grant_free : (s : S) → held s < limit → (s' : S) × (grant s ≡ some s')
  pub held-release : (s : S) (n : ℕ) → held s ≡ suc n → held (release s) ≡ n

-- Why Acquire gave up: the limiter's timeout, or the request's own context.
pub data AcquireError : Type 0 where
  deadline_exceeded other_error : AcquireError

-- A request in the middleware: it runs unlimited, it waits in AcquireWrite, it runs the handlers
-- with the semaphore, or it is over, with the middleware's own answer or the handlers'.
pub data Phase : Type 0 where
  unlimited queued holding : Phase
  refused : Response → Phase
  handled : Phase

-- The middleware up to AcquireWrite, by the error of the request's context.
unfoldable pub enter : Request → Option String → Phase
enter r err = if r.method == "OPTIONS" then unlimited else elim err [
  | some e ↦ refused (json 408 "Request Timeout" "Request was canceled")
  | none ↦ queued
]

-- What follows AcquireWrite, by its error.
unfoldable pub acquired : Option AcquireError → Phase
acquired none = holding
acquired (some deadline_exceeded) =
    refused (json 503 "Service Unavailable" "Server is at capacity processing writes, please retry")
acquired (some other_error) =
    refused (json 503 "Service Unavailable" "Write operation could not be queued")

abbrev after : Phase → Option AcquireError → Verdict
after unlimited e = next
after holding e = next
after handled e = next
after (refused a) e = answer a
after queued e = elim (acquired e) [
  | refused a ↦ answer a
  | unlimited ↦ next
  | queued ↦ next
  | holding ↦ next
  | handled ↦ next
]

-- The whole middleware as a handler, by what its context and the semaphore answer.
unfoldable pub write_concurrency_limit_middleware : Option String → Option AcquireError → Handler
unfolding enter acquired
write_concurrency_limit_middleware err e r = after (enter r err) e
