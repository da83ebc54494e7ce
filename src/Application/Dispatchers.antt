-- ===== src/Application/Dispatchers.antt =====
-- application.go and jobs.go: stopWorkers of an application whose workers are job dispatchers.
use cartridge.Prelude.{
  suc, ◌≡◌, refl, ap, sym, subst, true, false, List, [], ◌∷◌, length, All, Bool-cases, inl, inr,
  arith,
}
use cartridge.Jobs.{Loop, JobDispatcher, Step, stops, stop_returns, stop_begins}
use cartridge.Jobs.Invariant.{ReachedSerially, others}
use cartridge.Jobs.Serial.{Leads, stays, goes, serial-loops, serial-stops}

-- A call of Stop: its start, what the dispatcher does while it waits, and its return.
pub data StopCall : JobDispatcher → JobDispatcher → Type 0 where
  calls : (d e : JobDispatcher) → Leads (stop_begins d) e → e.waiting ≡ d.waiting → StopCall d e

-- The calls of stopWorkers, one after the other.
pub data StopCalls : List JobDispatcher → List JobDispatcher → Type 0 where
  no_more : StopCalls [] []
  then_next :
      (d e : JobDispatcher) (ds es : List JobDispatcher)
      → StopCall d e
      → StopCalls ds es
      → StopCalls (d ∷ ds) (e ∷ es)

-- Reached by calls that keep the rule on Start, with no Stop on its way.
pub record IsSettled (d : JobDispatcher) : Type 0 where
  pub reached : ReachedSerially d
  pub quiet : d.waiting ≡ 0

pub record IsHalted (d : JobDispatcher) : Type 0 where
  pub not_running : d.running ≡ false
  pub no_loop : d.loops ≡ []
  pub no_stop : d.waiting ≡ 0

no_loops : (xs : List Loop) → length xs ≡ 0 → xs ≡ []
no_loops [] h = refl
no_loops (x ∷ xs) h = absurd (omega (arith, h))

Leads-append : (d e f : JobDispatcher) → Leads d e → Step e f → Leads d f
Leads-append d _ f (stays _) s = goes d f f s (stays f)
Leads-append d e f (goes _ m _ h l) s = goes d m f h (Leads-append m e f l s)

-- Stop of a dispatcher that runs, and of one that does not.
running_stops :
    (d : JobDispatcher)
    → d.running ≡ true
    → stop_begins d
      ≡ record d { running = false; closed = d.stop ∷ d.closed; waiting = suc d.waiting }
unfolding stop_begins
running_stops d r = simp r

idle_stops : (d : JobDispatcher) → d.running ≡ false → stop_begins d ≡ d
unfolding stop_begins
idle_stops d r = simp r

idle_returns :
    (d : JobDispatcher)
    → IsSettled d
    → d.running ≡ false
    → (e : JobDispatcher) × StopCall d e × IsHalted e
idle_returns d s r = (
  d,
  calls d d (subst (λ x. Leads x d) (sym (idle_stops d r)) (stays d)) refl,
  record {
    not_running = r;
    no_loop = no_loops d.loops ((serial-loops d s.reached).2 r s.quiet);
    no_stop = s.quiet;
  },
)

running_returns :
    (d : JobDispatcher)
    → IsSettled d
    → d.running ≡ true
    → (e : JobDispatcher) × StopCall d e × IsHalted e
running_returns d s r =
    let begun = stop_begins d in
    let over = running_stops d r in
    let reached = others d begun s.reached (stops d) (ap (λ x. x.stop) over) in
    let stopped : begun.running ≡ false = ap (λ x. x.running) over in
    let one : begun.waiting ≡ suc d.waiting = ap (λ x. x.waiting) over in
    let empty : JobDispatcher = record begun { loops = [] } in
    let halted : JobDispatcher = record empty { waiting = d.waiting } in
    (
      halted,
      calls d halted
          (Leads-append begun empty halted (serial-stops begun reached stopped)
            (stop_returns empty d.waiting one refl))
          refl,
      record { not_running = stopped; no_loop = refl; no_stop = s.quiet },
    )

stop_halts : (d : JobDispatcher) → IsSettled d → (e : JobDispatcher) × StopCall d e × IsHalted e
stop_halts d s = elim (Bool-cases d.running) [
  | inl r ↦ running_returns d s r
  | inr r ↦ idle_returns d s r
]

-- When every worker of an application is a job dispatcher, on which no Start was called before every
-- Stop had returned and no Stop is on its way, stopWorkers can call Stop on one after the other,
-- whether it was started or not, and have each call return: then none of them runs, has a loop or
-- has a waiting Stop.
pub stop_workers-IsHalted :
    (ds : List JobDispatcher)
    → All IsSettled ds
    → (es : List JobDispatcher) × StopCalls ds es × All IsHalted es
stop_workers-IsHalted [] s = ([], no_more, tt)
stop_workers-IsHalted (d ∷ ds) (s, ss) =
    let (e, c, h) = stop_halts d s in
    let (es, cs, hs) = stop_workers-IsHalted ds ss in (e ∷ es, then_next d e ds es c cs, (h, hs))
