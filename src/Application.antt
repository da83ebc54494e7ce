-- ===== src/Application.antt =====
-- application.go: what an application does with its workers and its server, as a list of actions.
-- The errors of the workers, of the server and of its shutdown are arguments.
pub mod Workers
pub mod Signals
pub mod Dispatchers
mod Tests
use cartridge.Prelude.{
  ℕ, String, Bool, true, false, Option, none, some, List, [], ◌∷◌, ◌++◌, map, if◌then◌else◌,
}

pub data Action : Type 0 where
  starts_worker stops_worker : ℕ → Action
  serves serves_async shuts_down : Action

-- What the workers' Start, the server's Start and its Shutdown return, `none` for nil.
pub record Outcomes : Type 0 where
  pub worker : ℕ → Option String
  pub server : Option String
  pub shutdown : Option String

-- Workers are numbers; the list is in the order of starting.
pub record Application : Type 0 where
  pub workers : List ℕ

unfoldable pub add_worker : ℕ → Application → Application
add_worker w a = record a { workers = a.workers ++ w ∷ [] }

unfoldable pub stop_workers : List ℕ → List Action
stop_workers = map stops_worker

-- The loop of Start, up to its first error.
unfoldable pub start_workers : Outcomes → List ℕ → List Action × Option String
start_workers o [] = ([], none)
start_workers o (w ∷ ws) =
    let (rest, err) = start_workers o ws in
    elim (o.worker w) [
      | some e ↦ (starts_worker w ∷ [], some e)
      | none ↦ (starts_worker w ∷ rest, err)
    ]

-- What Start does after its loop, by the loop's error; `serving` is the server's part.
abbrev pub finish :
    List ℕ → List Action × Option String → List Action × Option String → List Action × Option String
finish ws (acts, some e) serving = (acts ++ stop_workers ws, some e)
finish ws (acts, none) (more, err) = (acts ++ more, err)

unfoldable pub start : Outcomes → Application → List Action × Option String
unfolding start_workers stop_workers
start o a = finish a.workers (start_workers o a.workers) (serves ∷ [], o.server)

-- The server's goroutine only logs its error.
unfoldable pub start_async : Outcomes → Application → List Action × Option String
unfolding start_workers stop_workers
start_async o a = finish a.workers (start_workers o a.workers) (serves_async ∷ [], none)

unfoldable pub shutdown : Outcomes → Application → List Action × Option String
unfolding stop_workers
shutdown o a = (stop_workers a.workers ++ shuts_down ∷ [], o.shutdown)

abbrev pub and_then :
    List Action × Option String → List Action × Option String → List Action × Option String
and_then (acts, some e) later = (acts, some e)
and_then (acts, none) (more, err) = (acts ++ more, err)

-- Start, the termination signal, and Shutdown.
unfoldable pub run_with_timeout : Outcomes → Application → List Action × Option String
unfolding start shutdown
run_with_timeout o a = and_then (start o a) (shutdown o a)
