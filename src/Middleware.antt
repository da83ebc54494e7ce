-- ===== src/Middleware.antt =====
-- Package middleware: the handlers that requests pass before a route's own handler.
pub mod Chain
pub mod RateLimiter
pub mod SecFetch
pub mod Concurrency
pub mod RequestLogger
