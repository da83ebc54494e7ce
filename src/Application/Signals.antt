-- ===== src/Application/Signals.antt =====
-- application.go, RunWithTimeout, beside the operating system: Listen returns nil once the Fiber
-- application was shut down, and until signal.Notify runs, a termination signal ends the process.
use cartridge.Prelude.{
  ℕ, ◌≡◌, ap, sym, arith, String, Bool, true, false, Option, none, some, List, [], ◌∷◌, ◌++◌, map,
  All, subst,
}
use cartridge.Application.{
  Action, starts_worker, stops_worker, serves, Outcomes, Application, start_workers, shutdown,
}
use cartridge.Application.Workers.{start_workers-All}

-- In Listen, behind signal.Notify, returned, or ended by a signal.
pub data Phase : Type 0 where
  listening waiting killed : Phase
  finished : Option String → Phase

-- `closed`: some other code has shut the Fiber application down.
pub record Process : Type 0 where
  pub phase : Phase
  pub actions : List Action
  pub closed : Bool

-- Start up to Listen, by the loop over the workers.
abbrev pub listen_after : List ℕ → List Action × Option String → Process
listen_after ws (acts, some e) = record {
  phase = finished (some e);
  actions = acts ++ map stops_worker ws;
  closed = false;
}
listen_after ws (acts, none) = record {
  phase = listening;
  actions = acts ++ serves ∷ [];
  closed = false;
}

unfoldable pub launch : Outcomes → Application → Process
unfolding start_workers
launch o a = listen_after a.workers (start_workers o a.workers)

module _ (o : Outcomes) (a : Application) where
  pub data Step : Process → Process → Type 0 where
    listen_fails :
        (e : String) (acts : List Action) (b : Bool)
        → Step
            (record { phase = listening; actions = acts; closed = b })
            (record { phase = finished (some e); actions = acts; closed = b })
    closes :
        (p : Phase) (acts : List Action) (b : Bool)
        → Step
            (record { phase = p; actions = acts; closed = b })
            (record { phase = p; actions = acts; closed = true })
    listen_returns :
        (acts : List Action)
        → Step
            (record { phase = listening; actions = acts; closed = true })
            (record { phase = waiting; actions = acts; closed = true })
    signal_kills :
        (acts : List Action) (b : Bool)
        → Step
            (record { phase = listening; actions = acts; closed = b })
            (record { phase = killed; actions = acts; closed = b })
    signal_arrives :
        (acts : List Action) (b : Bool)
        → Step
            (record { phase = waiting; actions = acts; closed = b })
            (record {
              phase = finished (shutdown o a).1;
              actions = acts ++ (shutdown o a).0;
              closed = b;
            })

  pub data Reached : Process → Type 0 where
    launches : Reached (launch o a)
    steps : (p q : Process) → Reached p → Step p q → Reached q

  -- What an application has done whose workers all started.
  abbrev launched : List Action
  launched = map starts_worker a.workers ++ serves ∷ []

  abbrev pub IsUnsignalled : Phase → Type 0
  IsUnsignalled listening = Unit
  IsUnsignalled killed = Unit
  IsUnsignalled waiting = ⊥
  IsUnsignalled (finished none) = ⊥
  IsUnsignalled (finished (some e)) = Unit

  abbrev IsOpen : Process → Type 0
  IsOpen p = p.closed ≡ false → (p.actions ≡ launched) × IsUnsignalled p.phase

  Step-IsOpen : (p q : Process) → Step p q → IsOpen p → IsOpen q
  Step-IsOpen _ _ (listen_fails e acts b) k c = ((k c).0, tt)
  Step-IsOpen _ _ (closes p acts b) k c = absurd (ground (arith, c))
  Step-IsOpen _ _ (listen_returns acts) k c = absurd (ground (arith, c))
  Step-IsOpen _ _ (signal_kills acts b) k c = ((k c).0, tt)
  Step-IsOpen _ _ (signal_arrives acts b) k c = absurd (k c).1

  launch-IsOpen : All (λ w. o.worker w ≡ none) a.workers → IsOpen (launch o a)
  unfolding launch
  launch-IsOpen h c =
      let e = start_workers-All o a.workers h in
      (
        ap (λ r. (listen_after a.workers r).actions) e,
        subst (λ r. IsUnsignalled (listen_after a.workers r).phase) (sym e) tt,
      )

  path-IsOpen : (p : Process) → Reached p → All (λ w. o.worker w ≡ none) a.workers → IsOpen p
  path-IsOpen _ launches h = launch-IsOpen h
  path-IsOpen q (steps p _ r s) h = Step-IsOpen p q s (path-IsOpen p r h)

  -- When every worker starts, then whatever happens from Listen on, signals included, as long as no other code
  -- shuts the Fiber application down, the program has stopped no worker and has not begun to shut
  -- its server down: it still listens, a signal has killed it, or Listen has failed and Start has
  -- returned that error.
  pub run_with_timeout-IsUnsignalled :
      (p : Process)
      → Reached p
      → All (λ w. o.worker w ≡ none) a.workers
      → p.closed ≡ false
      → (p.actions ≡ map starts_worker a.workers ++ serves ∷ []) × IsUnsignalled p.phase
  run_with_timeout-IsUnsignalled p r h c = path-IsOpen p r h c
