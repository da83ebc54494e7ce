-- ===== src/Database/Manager/Once.antt =====
-- Sequences of calls of a manager: how often it opens its database, and what a failed attempt leaves.
use cartridge.Prelude.{
  ℕ, suc, ◌<◌, ◌≡◌, ◌⊎◌, refl, String, Bool, true, false, Option, none, some, List, [], ◌∷◌, arith,
  All, Bool-cases, Option-cases, inl, inr,
}
use cartridge.Database.Driver.{exec_all}
use cartridge.Database.Manager.{
  Failure, Answers, Manager, session, failed, session_of_nil, open_fresh, open_db, session_for,
  connect, get_connection, close, checkpoint_wal,
}

pub data Call : Type 0 where
  connects get_connections closes : Answers → Call
  checkpoints : Answers → String → Call

unfoldable pub step : Call → Manager → Manager
unfolding connect get_connection close checkpoint_wal
step (connects a) m = (connect a m).0
step (get_connections a) m = (get_connection a m).0
step (closes a) m = (close a m).0
step (checkpoints a mode) m = (checkpoint_wal a mode m).0

unfoldable pub run : List Call → Manager → Manager
run [] m = m
run (c ∷ cs) m = run cs (step c m)

-- A manager whose one attempt to connect failed.
pub record IsStuck (m : Manager) : Type 0 where
  pub closed : m.db ≡ none
  pub used : m.once_done ≡ true

open_fresh-failed :
    (opening after sql : Option String) (m : Manager) (f : Failure)
    → (open_fresh opening after sql m).1 ≡ some f
    → (open_fresh opening after sql m).0 ≡ m
unfolding open_fresh
open_fresh-failed (some e) after sql m f h = refl
open_fresh-failed none (some e) sql m f h = refl
open_fresh-failed none none (some e) m f h = refl
open_fresh-failed none none none m f h = ground arith

open_db-failed :
    (a : Answers) (m : Manager) (f : Failure)
    → (open_db a m).1 ≡ some f
    → ((open_db a m).0 ≡ m) × (m.db ≡ none)
unfolding open_db
open_db-failed a m f h = elim (Option-cases m.db) [
  | inl d ↦ grind (arith, open_fresh-failed, d)
  | inr (k, d) ↦ grind (arith, d)
]

session_for-failed :
    (db : Option ℕ) (err : Option Failure) (f : Failure)
    → session_for db err ≡ failed f
    → err ≡ some f
session_for-failed db (some e) f h = ground arith
session_for-failed none none f h = ground arith
session_for-failed (some k) none f h = ground arith

connect-IsStuck :
    (a : Answers) (m : Manager) (f : Failure) → (connect a m).1 ≡ failed f → IsStuck (connect a m).0
unfolding connect
connect-IsStuck a m f h = elim (Bool-cases m.once_done) [
  | inl t ↦ grind (arith, session_for-failed, t)
  | inr t ↦ grind (arith, session_for-failed, open_db-failed, t)
]

step-IsStuck : (c : Call) (m : Manager) → IsStuck m → IsStuck (step c m)
unfolding step
step-IsStuck (connects a) m s = ground arith
step-IsStuck (get_connections a) m s = ground arith
step-IsStuck (closes a) m s = ground arith
step-IsStuck (checkpoints a mode) m s = ground arith

run-IsStuck : (cs : List Call) (m : Manager) → IsStuck m → IsStuck (run cs m)
unfolding run
run-IsStuck [] m s = s
run-IsStuck (c ∷ cs) m s = run-IsStuck cs (step c m) (step-IsStuck c m s)

connect_stuck : (a : Answers) (m : Manager) → IsStuck m → (connect a m).1 ≡ session_of_nil
unfolding connect
connect_stuck a m s = ground arith

-- The manager is connected to the database h, which was its nth.
pub record IsConnected (m : Manager) (h n : ℕ) : Type 0 where
  pub holds : m.db ≡ some h
  pub used : m.once_done ≡ true
  pub count : m.opened ≡ n

unfoldable pub is_close : Call → Bool
is_close (closes a) = true
is_close c = false

step-IsConnected :
    (c : Call) (m : Manager) (h n : ℕ)
    → is_close c ≡ false
    → IsConnected m h n
    → IsConnected (step c m) h n
unfolding step is_close
step-IsConnected (connects a) m h n o s = ground arith
step-IsConnected (get_connections a) m h n o s = ground arith
step-IsConnected (closes a) m h n o s = ground arith
step-IsConnected (checkpoints a mode) m h n o s = ground arith

run-IsConnected :
    (cs : List Call) (m : Manager) (h n : ℕ)
    → All (λ c. is_close c ≡ false) cs
    → IsConnected m h n
    → IsConnected (run cs m) h n
unfolding run
run-IsConnected [] m h n os s = s
run-IsConnected (c ∷ cs) m h n (o, os) s =
    run-IsConnected cs (step c m) h n os (step-IsConnected c m h n o s)

-- Once a Connect has failed, then whatever calls follow, Close included, Connect no longer reports
-- an error and gives no connection: it calls Session through the nil pointer.
pub failed_connect-connect :
    (a : Answers) (m : Manager) (f : Failure) (cs : List Call) (b : Answers)
    → (connect a m).1 ≡ failed f
    → (connect b (run cs (connect a m).0)).1 ≡ session_of_nil
failed_connect-connect a m f cs b h = connect_stuck b _ (run-IsStuck cs _ (connect-IsStuck a m f h))

connect_connected :
    (a : Answers) (m : Manager) (h n : ℕ) → IsConnected m h n → (connect a m).1 ≡ session h
unfolding connect
connect_connected a m h n s = ground arith

pub open_fresh-opened :
    (opening after sql : Option String) (m : Manager)
    → (open_fresh opening after sql m).1 ≡ none
    → (open_fresh opening after sql m).0 ≡ record m { db = some m.opened; opened = suc m.opened }
unfolding open_fresh
open_fresh-opened (some e) after sql m h = ground arith
open_fresh-opened none (some e) sql m h = ground arith
open_fresh-opened none none (some e) m h = ground arith
open_fresh-opened none none none m h = refl

open_db-cases :
    (a : Answers) (m : Manager)
    → ((open_db a m).0 ≡ m)
      ⊎ ((open_db a m).0 ≡ record m { db = some m.opened; opened = suc m.opened })
unfolding open_db
open_db-cases a m = elim (Option-cases m.db) [
  | inl d ↦
      elim (Option-cases
        (open_fresh (a.opening (m.driver.configure_dsn m.cfg.dsn m.cfg))
          (exec_all a.exec (m.driver.after_connect m.cfg)) a.sql_db m).1) [
            | inl o ↦ inr (grind (arith, open_fresh-opened, d, o))
            | inr (f, o) ↦ inl (grind (arith, open_fresh-failed, d, o))
          ]
  | inr (k, d) ↦ inl (grind (arith, d))
]

connect-cases :
    (a : Answers) (m : Manager)
    → (((connect a m).0.db ≡ m.db)
        × ((connect a m).0.once_done ≡ true)
        × ((connect a m).0.opened ≡ m.opened))
      ⊎ (((connect a m).0.db ≡ some m.opened)
          × ((connect a m).0.once_done ≡ true)
          × ((connect a m).0.opened ≡ suc m.opened))
unfolding connect
connect-cases a m = elim (open_db-cases a m) [
  | inl e ↦ inl (grind arith)
  | inr e ↦ elim (Bool-cases m.once_done) [ inl t ↦ inl (grind arith) | inr t ↦ inr (grind arith) ]
]

connect_used : (a : Answers) (m : Manager) → (connect a m).0.once_done ≡ true
unfolding connect
connect_used a m = ground arith

session_for-session :
    (db : Option ℕ) (err : Option Failure) (h : ℕ) → session_for db err ≡ session h → db ≡ some h
session_for-session none (some e) h q = ground arith
session_for-session (some k) (some e) h q = ground arith
session_for-session none none h q = ground arith
session_for-session (some k) none h q = ground arith

-- A handle was opened, and the once was used for it.
pub record IsSound (m : Manager) : Type 0 where
  pub below : (h : ℕ) → m.db ≡ some h → h < m.opened
  pub used : (h : ℕ) → m.db ≡ some h → m.once_done ≡ true

pub connect-IsSound : (a : Answers) (m : Manager) → IsSound m → IsSound (connect a m).0
connect-IsSound a m s = elim (connect-cases a m) [
  | inl (e, u, n) ↦ record {
    below = λ h d. grind (arith, s.below, e, n);
    used = λ h d. grind (arith, s.used, e, u);
  }
  | inr e ↦ record { below = λ h d. grind (arith, e); used = λ h d. grind (arith, e) }
]

connect-IsConnected :
    (a : Answers) (m : Manager) (h : ℕ)
    → (connect a m).1 ≡ session h
    → IsConnected (connect a m).0 h (connect a m).0.opened
unfolding connect
connect-IsConnected a m h e = record {
  holds = elim (Bool-cases m.once_done) [
    | inl t ↦ grind (arith, session_for-session, t)
    | inr t ↦ grind (arith, session_for-session, t)
  ];
  used = connect_used a m;
  count = refl;
}

-- A Connect that gives a connection opened it once: whatever calls other than Close follow, every
-- later Connect gives the same connection, and none of the calls opens the database again.
pub connect_once :
    (a : Answers) (m : Manager) (h : ℕ) (cs : List Call) (b : Answers)
    → (connect a m).1 ≡ session h
    → All (λ c. is_close c ≡ false) cs
    → ((connect b (run cs (connect a m).0)).1 ≡ session h)
      × ((run cs (connect a m).0).opened ≡ (connect a m).0.opened)
connect_once a m h cs b e os =
    let s = run-IsConnected cs _ h _ os (connect-IsConnected a m h e) in
    (connect_connected b _ h _ s, s.count)
