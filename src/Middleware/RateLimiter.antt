-- ===== src/Middleware/RateLimiter.antt =====
-- middleware/ratelimiter.go: what Fiber's rate limiter is set up with. The counting of requests is
-- Fiber's; a storage is a number.
mod Tests
use cartridge.Prelude.{
  ℕ, suc, ◌+◌, ◌≤◌, ◌≡◌, refl, ap, String, Bool, true, false, not, ◌&&◌, ◌||◌, Option, none, some,
  List, [], ◌∷◌, ltb, leb, if◌then◌else◌, arith,
}
use cartridge.Prelude.Int.{ℤ, pos, negsuc, leb_ℤ, ◌<ℤ◌, pos_part, neg_part}
use cartridge.Middleware.Chain.{Request}

-- EnvironmentChecker
pub record Environment : Type 0 where
  pub is_test : Bool
  pub is_development : Bool

pub record RateLimiterConfig : Type 0 where
  pub max : ℤ
  pub duration : ℤ
  pub skip : Option (Request → Bool)
  pub storage : Option ℕ
  pub env : Option Environment

pub data RateLimiterOption : Type 0 where
  with_max : ℤ → RateLimiterOption
  with_duration : ℤ → RateLimiterOption
  with_skip : (Request → Bool) → RateLimiterOption
  with_storage : ℕ → RateLimiterOption
  with_env : Environment → RateLimiterOption

unfoldable pub apply_limit : RateLimiterOption → RateLimiterConfig → RateLimiterConfig
apply_limit (with_max max) cfg = record cfg { max = max }
apply_limit (with_duration duration) cfg = record cfg { duration = duration }
apply_limit (with_skip skip) cfg = record cfg { skip = some skip }
apply_limit (with_storage storage) cfg = record cfg { storage = some storage }
apply_limit (with_env env) cfg = record cfg { env = some env }

unfoldable pub apply_limits : List RateLimiterOption → RateLimiterConfig → RateLimiterConfig
unfolding apply_limit
apply_limits [] cfg = cfg
apply_limits (o ∷ os) cfg = apply_limits os (apply_limit o cfg)

abbrev pub positive_or : ℤ → ℤ → ℤ
positive_or n fallback = if leb_ℤ n (pos 0) then fallback else n

unfoldable pub limits_of : List RateLimiterOption → RateLimiterConfig
unfolding apply_limits
limits_of options =
    let cfg = apply_limits options (record {
      max = pos 50;
      duration = pos 1_000_000_000;
      skip = none;
      storage = none;
      env = none;
    }) in
    record cfg {
      max = positive_or cfg.max (pos 50);
      duration = positive_or cfg.duration (pos 1_000_000_000);
    }

-- Next: whether a request is not limited.
abbrev in_development : Option Environment → Bool
in_development none = false
in_development (some env) = env.is_test || env.is_development

abbrev skipped : Option (Request → Bool) → Request → Bool
skipped none r = false
skipped (some f) r = f r

unfoldable pub unlimited : RateLimiterConfig → Request → Bool
unlimited cfg r = if in_development cfg.env then true else skipped cfg.skip r

-- string(rune(n)): one code point, U+FFFD where n is none.
abbrev pub rune_text : ℤ → List ℕ
rune_text (negsuc n) = 65533 ∷ []
rune_text (pos n) = if ltb n 55296 || ltb 57343 n && ltb n 1114112 then n ∷ [] else 65533 ∷ []

-- The answer of LimitReached: its status, headers with the limit as code points, and the seconds to
-- wait.
pub record Limited : Type 0 where
  pub status : ℕ
  pub retry_after_header : String
  pub limit_header : List ℕ
  pub remaining_header : String
  pub retry_after : ℕ

unfoldable pub limit_reached : RateLimiterConfig → Limited
limit_reached cfg = record {
  status = 429;
  retry_after_header = "60";
  limit_header = rune_text cfg.max;
  remaining_header = "0";
  retry_after = 60;
}

positive_or_positive : (n m : ℤ) → pos 0 <ℤ m → pos 0 <ℤ positive_or n m
positive_or_positive n m h = ground (arith, h)

one_of : (b : Bool) (c d : ℕ) → (x : ℕ) × ((if b then c ∷ [] else d ∷ []) ≡ x ∷ [])
one_of true c d = (c, refl)
one_of false c d = (d, refl)

one_rune : (n : ℤ) → (c : ℕ) × (rune_text n ≡ c ∷ [])
one_rune (negsuc n) = (65533, refl)
one_rune (pos n) = one_of (ltb n 55296 || ltb 57343 n && ltb n 1114112) n 65533

-- Whatever the options, the limiter has a positive limit and a positive window, and the header that
-- names the limit is one character.
pub limits_of_bounds :
    (options : List RateLimiterOption)
    → let cfg = limits_of options in
      (pos 0 <ℤ cfg.max)
      × (pos 0 <ℤ cfg.duration)
      × ((c : ℕ) × ((limit_reached cfg).limit_header ≡ c ∷ []))
unfolding limits_of limit_reached
limits_of_bounds options =
    let cfg = apply_limits options _ in
    (
      positive_or_positive cfg.max (pos 50) (omega arith),
      positive_or_positive cfg.duration (pos 1_000_000_000) (omega arith),
      one_rune (positive_or cfg.max (pos 50)),
    )
