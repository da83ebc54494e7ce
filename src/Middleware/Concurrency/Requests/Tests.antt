-- ===== src/Middleware/Concurrency/Requests/Tests.antt =====
-- A limiter of one write, and its theorems at concrete steps.
use cartridge.Prelude.{
  ℕ, zero, suc, pred, ◌≡◌, ◌≤◌, ◌<◌, refl, ap, arith, true, Option, none, some, [], ◌∷◌,
}
use cartridge.Middleware.Chain.{Request}
use cartridge.Middleware.Concurrency.{Semaphore, queued, holding, handled, enter, acquired}
use cartridge.Middleware.Concurrency.Requests.{
  holders, arrives, wakes, returns, Reached, starts, steps, Reached-Counted,
}

program : Unit {0}
unfolding holders enter acquired
program = tt

abbrev grant_one : ℕ → Option ℕ
grant_one zero = some 1
grant_one (suc n) = none

grant_one-held : (s s' : ℕ) → grant_one s ≡ some s' → (s < 1) × (s' ≡ suc s)
grant_one-held zero s' h = (omega arith, ground arith)
grant_one-held (suc n) s' h = ground arith

grant_one-free : (s : ℕ) → s < 1 → (s' : ℕ) × (grant_one s ≡ some s')
grant_one-free zero l = (1, refl)
grant_one-free (suc n) l = ground arith

-- A semaphore of one permit that counts what is held.
abbrev single : Semaphore ℕ 1
single = record {
  fresh = 0;
  held = λ s. s;
  grant = grant_one;
  release = pred;
  held-fresh = refl;
  held-grant = grant_one-held;
  grant_free = grant_one-free;
  held-release = λ s n h. ap pred h;
}

abbrev post : Request
post = record { method = "POST"; header = λ h. ""; accepts_json = true }

both : Reached single (0, queued ∷ queued ∷ [])
unfolding program
both = steps _ _ (steps _ _ starts (arrives post none 0 [])) (arrives post none 0 (queued ∷ []))

one_writes : Reached single (1, queued ∷ holding ∷ [])
unfolding program
one_writes = steps _ _ both (wakes 0 1 (queued ∷ []) [] refl)

one_left : Reached single (0, queued ∷ handled ∷ [])
unfolding program
one_left = steps _ _ one_writes (returns 1 (queued ∷ []) [])

Reached-Counted_example :
    (1 ≡ holders (queued ∷ holding ∷ [])) × (holders (queued ∷ holding ∷ []) ≤ 1)
Reached-Counted_example = Reached-Counted single 1 (queued ∷ holding ∷ []) one_writes
