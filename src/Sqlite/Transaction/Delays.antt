-- ===== src/Sqlite/Transaction/Delays.antt =====
-- How long a write waits between its attempts, and how many there are.
use cartridge.Prelude.{
  ℕ, ◌-◌, ◌*◌, ◌^◌, ◌≡◌, ◌≤◌, ◌<◌, Bool, true, false, List, [], ◌∷◌, ◌++◌, arith, min, All, keep,
  length,
}
use cartridge.Sqlite.Transaction.{Event, body, sleep, Run, to_duration, calculate_retry_delay}

abbrev int64_end : ℕ
int64_end = 9_223_372_036_854_775_808

to_duration_small : (out : ℕ → ℕ) (x : ℕ) → x < int64_end → to_duration out x ≡ x
unfolding to_duration
to_duration_small out x h = ground arith

-- The delay doubles with each attempt up to the maximum, and jitter adds at most a fifth, while the
-- doubled delay and the maximum with its jitter fit in an int64.
pub calculate_retry_delay_bounds :
    (attempt base max : ℕ) (jitter out : ℕ → ℕ)
    → ((d : ℕ) → 5 * jitter d ≤ d)
    → base * 2 ^ (attempt - 1) < 9_223_372_036_854_775_808
    → 6 * max < 5 * 9_223_372_036_854_775_808
    → let capped = min max (base * 2 ^ (attempt - 1)) in
      (capped ≤ calculate_retry_delay attempt base max jitter out)
      × (5 * calculate_retry_delay attempt base max jitter out ≤ 6 * capped)
unfolding calculate_retry_delay
calculate_retry_delay_bounds attempt base max jitter out h fits room =
    rw (to_duration_small out (base * 2 ^ (attempt - 1)) fits)
      (ground (arith, h max, h (base * 2 ^ (attempt - 1))))

-- What an event adds to the attempts and to the sleeps of a run, and how long it sleeps.
abbrev pub is_body : Event → Bool
is_body body = true
is_body _ = false

abbrev pub slept : Event → ℕ
slept (sleep d) = d
slept _ = 0

module _ (max : ℕ) where
  abbrev InBound : List Event → Type 0
  InBound es = All (λ e. 5 * slept e ≤ 6 * max) es

  InBound-append : (xs ys : List Event) → InBound xs → InBound ys → InBound (xs ++ ys)
  InBound-append [] ys a b = b
  InBound-append (x ∷ xs) ys a b = (a.0, InBound-append xs ys a.1 b)

-- Every sleep is bounded, and the callback runs at most `n` times.
record IsBounded (max n : ℕ) (r : Run) : Type 0 where
  sleeps : InBound max r.events
  bodies : length (keep is_body r.events) ≤ n
