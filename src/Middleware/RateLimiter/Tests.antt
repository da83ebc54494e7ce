-- ===== src/Middleware/RateLimiter/Tests.antt =====
-- A rate limiter of 100 requests, whose header names the limit as the letter "d".
use cartridge.Prelude.{◌≡◌, refl, [], ◌∷◌}
use cartridge.Prelude.Int.{pos}
use cartridge.Middleware.RateLimiter.{with_max, limits_of, limit_reached}

limit_header_100 : (limit_reached (limits_of (with_max (pos 100) ∷ []))).limit_header ≡ 100 ∷ []
unfolding limit_reached limits_of
limit_header_100 = refl
