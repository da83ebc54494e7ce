-- ===== src/Middleware/Concurrency/Requests.antt =====
-- Many requests in the middleware at once, in any order of their steps. Which of the waiting
-- requests the semaphore wakes is left open.
mod Tests
use cartridge.Prelude.{
  ℕ, suc, zero, ◌+◌, ◌≡◌, ◌≤◌, ◌<◌, refl, ap, arith, String, Bool, true, false, Option, none, some,
  List, [], ◌∷◌, ◌++◌, if◌then◌else◌, Bool-cases, Option-cases, inl, inr,
}
use cartridge.Middleware.Chain.{Request, Response}
use cartridge.Middleware.Concurrency.{
  Semaphore, AcquireError, Phase, unlimited, queued, holding, refused, handled, deadline_exceeded,
  other_error, enter, acquired,
}

abbrev holds : Phase → ℕ
holds holding = 1
holds unlimited = 0
holds queued = 0
holds (refused a) = 0
holds handled = 0

-- The requests that run their handlers with the semaphore.
unfoldable pub holders : List Phase → ℕ
holders [] = 0
holders (p ∷ ps) = holds p + holders ps

module _ {ℓ} {S : Type ℓ} {limit : ℕ} (sem : Semaphore S limit) where
  -- A step of one request while the others stand still. The handlers may return or panic: the
  -- release is deferred.
  pub data Step : S × List Phase → S × List Phase → Type ℓ where
    arrives :
        (r : Request) (err : Option String) (s : S) (ps : List Phase)
        → Step (s, ps) (s, enter r err ∷ ps)
    wakes :
        (s s' : S) (ps qs : List Phase)
        → sem.grant s ≡ some s'
        → Step (s, ps ++ queued ∷ qs) (s', ps ++ acquired none ∷ qs)
    gives_up :
        (e : AcquireError) (s : S) (ps qs : List Phase)
        → Step (s, ps ++ queued ∷ qs) (s, ps ++ acquired (some e) ∷ qs)
    returns :
        (s : S) (ps qs : List Phase)
        → Step (s, ps ++ holding ∷ qs) (sem.release s, ps ++ handled ∷ qs)
    passes : (s : S) (ps qs : List Phase) → Step (s, ps ++ unlimited ∷ qs) (s, ps ++ handled ∷ qs)

  -- What a new limiter reaches.
  pub data Reached : S × List Phase → Type ℓ where
    starts : Reached (sem.fresh, [])
    steps : (x y : S × List Phase) → Reached x → Step x y → Reached y

  holders-append :
      (ps : List Phase) (p : Phase) (qs : List Phase)
      → holders (ps ++ p ∷ qs) ≡ holds p + holders (ps ++ qs)
  unfolding holders
  holders-append [] p qs = refl
  holders-append (q ∷ ps) p qs = omega (arith, holders-append ps p qs)

  holders-change :
      (ps : List Phase) (p q : Phase) (qs : List Phase)
      → holders (ps ++ p ∷ qs) + holds q ≡ holders (ps ++ q ∷ qs) + holds p
  holders-change ps p q qs = omega (arith, holders-append ps p qs, holders-append ps q qs)

  holds-enter : (r : Request) (err : Option String) → holds (enter r err) ≡ 0
  unfolding enter
  holds-enter r none = ground arith
  holds-enter r (some e) = ground arith

  holds-gives_up : (e : AcquireError) → holds (acquired (some e)) ≡ 0
  unfolding acquired
  holds-gives_up deadline_exceeded = refl
  holds-gives_up other_error = refl

  -- The semaphore counts the requests that hold it.
  abbrev Counted : S × List Phase → Type 0
  Counted (s, ps) = (sem.held s ≡ holders ps) × (holders ps ≤ limit)

  Step-Counted : (x y : S × List Phase) → Step x y → Counted x → Counted y
  unfolding holders acquired
  Step-Counted _ _ (arrives r err s ps) (h, b) = ground (arith, holds-enter r err)
  Step-Counted _ _ (wakes s s' ps qs g) (h, b) =
      let (l, n) = sem.held-grant s s' g in
      let c = holders-change ps queued holding qs in (omega arith, omega arith)
  Step-Counted _ _ (gives_up e s ps qs) (h, b) =
      let z = holds-gives_up e in
      let c = holders-change ps queued (acquired (some e)) qs in (omega arith, omega arith)
  Step-Counted _ _ (returns s ps qs) (h, b) =
      let c = holders-change ps holding handled qs in
      let r = sem.held-release s (holders (ps ++ handled ∷ qs)) (omega arith) in (r, omega arith)
  Step-Counted _ _ (passes s ps qs) (h, b) =
      let c = holders-change ps unlimited handled qs in (omega arith, omega arith)

  path-Counted : (x : S × List Phase) → Reached x → Counted x
  unfolding holders
  path-Counted _ starts = (sem.held-fresh, ground arith)
  path-Counted y (steps x _ r t) = Step-Counted x y t (path-Counted x r)

  -- Whatever the order in which requests arrive, wait, give up, return or panic, the semaphore
  -- counts exactly the requests that run their handlers with it, and these are at most the limit.
  pub Reached-Counted :
      (s : S) (ps : List Phase) → Reached (s, ps) → (sem.held s ≡ holders ps) × (holders ps ≤ limit)
  Reached-Counted s ps r = path-Counted (s, ps) r

  -- No permit is lost: in every state that the limiter reaches, with fewer requests in their
  -- handlers than the limit, a waiting request can acquire the semaphore and run its handlers.
  pub Reached-wakes :
      (s : S) (ps qs : List Phase)
      → Reached (s, ps ++ queued ∷ qs)
      → holders (ps ++ queued ∷ qs) < limit
      → (s' : S) × Step (s, ps ++ queued ∷ qs) (s', ps ++ holding ∷ qs)
  unfolding acquired
  Reached-wakes s ps qs r l =
      let (h, b) = path-Counted _ r in
      let (s', g) = sem.grant_free s (omega arith) in (s', wakes s s' ps qs g)
