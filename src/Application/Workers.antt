-- ===== src/Application/Workers.antt =====
-- Which workers an application starts and stops.
use cartridge.Prelude.{ℕ, ◌≡◌, refl, ap, ◌∙◌, String, none, some, List, [], ◌∷◌, ◌++◌, map, All}
use cartridge.Application.{
  starts_worker, stops_worker, serves, serves_async, shuts_down, Outcomes, stop_workers,
  start_workers, finish, start, start_async, shutdown, and_then, run_with_timeout,
}

module _ (o : Outcomes) where
  start_workers-failed :
      (before : List ℕ) (w : ℕ) (after : List ℕ) (e : String)
      → All (λ v. o.worker v ≡ none) before
      → o.worker w ≡ some e
      → start_workers o (before ++ w ∷ after) ≡ (map starts_worker (before ++ w ∷ []), some e)
  unfolding start_workers
  start_workers-failed [] w after e a h = rw (start_workers, h) refl
  start_workers-failed (v ∷ before) w after e (n, a) h =
      rw (start_workers, n)
        (ap (λ r. (starts_worker v ∷ r.0, r.1)) (start_workers-failed before w after e a h))

  pub start_workers-All :
      (ws : List ℕ)
      → All (λ w. o.worker w ≡ none) ws
      → start_workers o ws ≡ (map starts_worker ws, none)
  unfolding start_workers
  start_workers-All [] a = refl
  start_workers-All (w ∷ ws) (n, a) =
      rw (start_workers, n) (ap (λ r. (starts_worker w ∷ r.0, r.1)) (start_workers-All ws a))

  -- When the workers before one start and that one fails, Start and StartAsync start these workers
  -- in order and no other, then stop every worker of the application, also those that they never
  -- started, and return the failed worker's error. The server is not started.
  pub start-failed :
      (before : List ℕ) (w : ℕ) (after : List ℕ) (e : String)
      → All (λ v. o.worker v ≡ none) before
      → o.worker w ≡ some e
      → (start o (record { workers = before ++ w ∷ after }) ≡ (
        map starts_worker (before ++ w ∷ []) ++ map stops_worker (before ++ w ∷ after),
        some e,
      ))
        × (start_async o (record { workers = before ++ w ∷ after }) ≡ (
          map starts_worker (before ++ w ∷ []) ++ map stops_worker (before ++ w ∷ after),
          some e,
        ))
  unfolding start start_async stop_workers
  start-failed before w after e a h =
      let s = start_workers-failed before w after e a h in
      (
        ap (λ r. finish (before ++ w ∷ after) r (serves ∷ [], o.server)) s,
        ap (λ r. finish (before ++ w ∷ after) r (serves_async ∷ [], none)) s,
      )

  -- When every worker and the server start, a run of the application starts the workers in order
  -- and then serves; at the signal it stops every worker, each after its start, before it shuts the
  -- server down, and it returns the error of the shutdown.
  pub run_with_timeout-All :
      (ws : List ℕ)
      → All (λ w. o.worker w ≡ none) ws
      → o.server ≡ none
      → run_with_timeout o (record { workers = ws }) ≡ (
        map starts_worker ws ++ serves ∷ [] ++ (map stops_worker ws ++ shuts_down ∷ []),
        o.shutdown,
      )
  unfolding run_with_timeout start shutdown stop_workers
  run_with_timeout-All ws a s =
      ap
        (λ r.
          and_then (finish ws r (serves ∷ [], o.server))
            (map stops_worker ws ++ shuts_down ∷ [], o.shutdown))
        (start_workers-All ws a)
      ∙ ap
          (λ x.
            and_then (map starts_worker ws ++ serves ∷ [], x)
              (map stops_worker ws ++ shuts_down ∷ [], o.shutdown))
          s
