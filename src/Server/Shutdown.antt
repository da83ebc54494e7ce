-- ===== src/Server/Shutdown.antt =====
-- server.go, Shutdown: the goroutine that shuts Fiber's application down, the channel, and the
-- caller, which waits for the channel or for its context. What Fiber's Shutdown returns and the
-- context's error are arguments, `none` where that never happens.
use cartridge.Prelude.{
  ℕ, zero, suc, ◌+◌, ◌≤◌, ◌<◌, ◌≡◌, ◌≢◌, ◌⊎◌, inl, inr, refl, ap, arith, String, Bool, true, false,
  Option, none, some, List, [], ◌∷◌, ◌++◌, length, Option-cases,
}

-- The error that a call returns, `none` for nil.
abbrev pub Result : Type 0
Result = Option String

pub data Goroutine : Type 0 where
  closing : Goroutine
  sending : Result → Goroutine
  ended : Goroutine

pub data Caller : Type 0 where
  selecting : Caller
  returned : Result → Caller

-- `expired` tells whether the context is done.
pub record Shutdown : Type 0 where
  pub goroutine : Goroutine
  pub done : List Result
  pub expired : Bool
  pub caller : Caller

-- The capacity of the channel.
unfoldable pub capacity : ℕ
capacity = 1

unfoldable pub begins : Shutdown
begins = record { goroutine = closing; done = []; expired = false; caller = selecting }

-- The run of app.Shutdown, the send, the end of the context, and the two cases of the select.
module _ (app : Option Result) (ctx : Option String) where
  pub data Step : Shutdown → Shutdown → Type 0 where
    closes :
        (r : Result) (done : List Result) (x : Bool) (c : Caller)
        → app ≡ some r
        → Step
            (record { goroutine = closing; done = done; expired = x; caller = c })
            (record { goroutine = sending r; done = done; expired = x; caller = c })
    sends :
        (r : Result) (done : List Result) (x : Bool) (c : Caller)
        → length done < capacity
        → Step
            (record { goroutine = sending r; done = done; expired = x; caller = c })
            (record { goroutine = ended; done = done ++ r ∷ []; expired = x; caller = c })
    expires :
        (e : String) (g : Goroutine) (done : List Result) (c : Caller)
        → ctx ≡ some e
        → Step
            (record { goroutine = g; done = done; expired = false; caller = c })
            (record { goroutine = g; done = done; expired = true; caller = c })
    gives_up :
        (e : String) (g : Goroutine) (done : List Result)
        → ctx ≡ some e
        → Step
            (record { goroutine = g; done = done; expired = true; caller = selecting })
            (record { goroutine = g; done = done; expired = true; caller = returned (some e) })
    receives :
        (r : Result) (g : Goroutine) (done : List Result) (x : Bool)
        → Step
            (record { goroutine = g; done = r ∷ done; expired = x; caller = selecting })
            (record { goroutine = g; done = done; expired = x; caller = returned r })

  -- A run of so many steps.
  pub data Run : ℕ → Shutdown → Type 0 where
    starts : Run zero begins
    steps : (n : ℕ) (s t : Shutdown) → Run n s → Step s t → Run (suc n) t

  -- Each step of the goroutine, of the context and of the caller is made once.
  abbrev goroutine_left : Goroutine → ℕ
  goroutine_left closing = 2
  goroutine_left (sending r) = 1
  goroutine_left ended = 0

  abbrev context_left : Bool → ℕ
  context_left true = 0
  context_left false = 1

  abbrev caller_left : Caller → ℕ
  caller_left selecting = 1
  caller_left (returned r) = 0

  abbrev left_of : Shutdown → ℕ
  left_of s = goroutine_left s.goroutine + context_left s.expired + caller_left s.caller

  Step-left_of : (s t : Shutdown) → Step s t → left_of s ≡ suc (left_of t)
  Step-left_of _ _ (closes r done x c h) = omega arith
  Step-left_of _ _ (sends r done x c h) = omega arith
  Step-left_of _ _ (expires e g done c h) = omega arith
  Step-left_of _ _ (gives_up e g done h) = omega arith
  Step-left_of _ _ (receives r g done x) = omega arith

  Run-left_of : (n : ℕ) (s : Shutdown) → Run n s → n + left_of s ≡ 4
  unfolding begins
  Run-left_of _ _ starts = refl
  Run-left_of _ t (steps n s _ r h) = omega (arith, Run-left_of n s r, Step-left_of s t h)

  -- The error of the context.
  abbrev IsLate : Result → Type 0
  IsLate r = (e : String) × (ctx ≡ some e) × (r ≡ some e)

  abbrev Timed : Caller → Type 0
  Timed selecting = Unit {0}
  Timed (returned r) = IsLate r

  abbrev Fits : Goroutine → List Result → Caller → Type 0
  Fits closing done c = (done ≡ []) × Timed c
  Fits (sending r) done c = (app ≡ some r) × (done ≡ []) × Timed c
  Fits ended done c =
      (r : Result) × (app ≡ some r)
      × (((done ≡ r ∷ []) × Timed c) ⊎ ((done ≡ []) × (c ≡ returned r)))

  abbrev Expired : Bool → Type 0
  Expired true = (e : String) × (ctx ≡ some e)
  Expired false = Unit {0}

  abbrev IsFitting : Shutdown → Type 0
  IsFitting s = Fits s.goroutine s.done s.caller × Expired s.expired

  Timed-gives_up :
      (g : Goroutine) (done : List Result) (e : String)
      → ctx ≡ some e
      → Fits g done selecting
      → Fits g done (returned (some e))
  Timed-gives_up closing done e h (d, t) = (d, (e, h, refl))
  Timed-gives_up (sending r) done e h (a, d, t) = (a, d, (e, h, refl))
  Timed-gives_up ended done e h (r, a, inl (d, t)) = (r, a, inl (d, (e, h, refl)))
  Timed-gives_up ended done e h (r, a, inr (d, q)) = absurd (ground (arith, q))

  Fits-receives :
      (g : Goroutine) (r : Result) (done : List Result)
      → Fits g (r ∷ done) selecting
      → Fits g done (returned r)
  Fits-receives closing r done (d, t) = absurd (ground (arith, d))
  Fits-receives (sending q) r done (a, d, t) = absurd (ground (arith, d))
  Fits-receives ended r done (q, a, inl (d, t)) = (q, a, inr (ground (arith, d), ground (arith, d)))
  Fits-receives ended r done (q, a, inr (d, t)) = absurd (ground (arith, d))

  Step-IsFitting : (s t : Shutdown) → Step s t → IsFitting s → IsFitting t
  Step-IsFitting _ _ (closes r done x c h) ((d, t), e) = ((h, d, t), e)
  Step-IsFitting _ _ (sends r done x c h) ((a, d, t), e) =
      ((r, a, inl (ap (λ l. l ++ r ∷ []) d, t)), e)
  Step-IsFitting _ _ (expires e g done c h) (f, x) = (f, (e, h))
  Step-IsFitting _ _ (gives_up e g done h) (f, x) = (Timed-gives_up g done e h f, x)
  Step-IsFitting _ _ (receives r g done x) (f, e) = (Fits-receives g r done f, e)

  Run-IsFitting : (n : ℕ) (s : Shutdown) → Run n s → IsFitting s
  unfolding begins
  Run-IsFitting _ _ starts = ((refl, tt), tt)
  Run-IsFitting _ t (steps n s _ r h) = Step-IsFitting s t h (Run-IsFitting n s r)

  -- The call has returned what the application's Shutdown returned or the context's error, and its
  -- goroutine is over or still waits for the application.
  abbrev pub IsOver : Shutdown → Type 0
  IsOver s =
      ((r : Result) × (s.caller ≡ returned r) × ((app ≡ some r) ⊎ IsLate r))
      × ((s.goroutine ≡ ended) ⊎ (app ≡ none))

  abbrev Goes : Shutdown → Type 0
  Goes s = IsOver s ⊎ ((t : Shutdown) × Step s t)

  -- A goroutine that waits for an application that never answers leaves the caller to its context.
  late-Goes :
      (e : String) (done : List Result) (x : Bool) (c : Caller)
      → app ≡ none
      → ctx ≡ some e
      → Timed c
      → Goes (record { goroutine = closing; done = done; expired = x; caller = c })
  late-Goes e done false c a h t = inr (_, expires e closing done c h)
  late-Goes e done true selecting a h t = inr (_, gives_up e closing done h)
  late-Goes e done true (returned r) a h t = inl ((r, refl, inr t), inr a)

  ended-Goes :
      (done : List Result) (x : Bool) (c : Caller)
      → Fits ended done c
      → Goes (record { goroutine = ended; done = done; expired = x; caller = c })
  ended-Goes done x c (r, a, inr (d, q)) = inl ((r, q, inl a), inl refl)
  ended-Goes done x (returned q) (r, a, inl (d, t)) = inl ((q, refl, inr t), inl refl)
  ended-Goes (q ∷ done) x selecting (r, a, inl (d, t)) = inr (_, receives q ended done x)
  ended-Goes [] x selecting (r, a, inl (d, t)) = absurd (ground (arith, d))

  fitting-Goes :
      (g : Goroutine) (done : List Result) (x : Bool) (c : Caller)
      → (app ≢ none) ⊎ (ctx ≢ none)
      → Fits g done c
      → Goes (record { goroutine = g; done = done; expired = x; caller = c })
  unfolding capacity
  fitting-Goes closing done x c k (d, t) = elim (Option-cases app) [
    | inr (r, a) ↦ inr (_, closes r done x c a)
    | inl a ↦ elim (Option-cases ctx) [
      | inr (e, h) ↦ late-Goes e done x c a h t
      | inl h ↦ elim k [ inl i ↦ absurd (i a) | inr i ↦ absurd (i h) ]
    ]
  ]
  fitting-Goes (sending r) done x c k (a, d, t) =
      inr (_, sends r done x c (omega (arith, ap length d)))
  fitting-Goes ended done x c k f = ended-Goes done x c f

  -- Where the application's Shutdown returns or the context is done some time, every run of Shutdown
  -- has at most four steps, whatever their order, and goes on until Shutdown has returned, either
  -- the result of the application's Shutdown or the context's error. Its goroutine does not wait to
  -- send that result: it is over then, unless the application's Shutdown never returns.
  pub shutdown_ends :
      (app ≢ none) ⊎ (ctx ≢ none)
      → (n : ℕ) (s : Shutdown) → Run n s
      → (n ≤ 4) × (IsOver s ⊎ ((t : Shutdown) × Step s t))
  shutdown_ends k n s r = (
    omega (arith, Run-left_of n s r),
    fitting-Goes s.goroutine s.done s.expired s.caller k (Run-IsFitting n s r).0,
  )
