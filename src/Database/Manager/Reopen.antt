-- ===== src/Database/Manager/Reopen.antt =====
-- What a manager opens after it was closed.
use cartridge.Prelude.{
  ℕ, ◌<◌, ◌≡◌, refl, ap, not, ◌∙◌, String, Bool, true, false, Option, none, some, List, [], ◌∷◌,
  if◌then◌else◌, arith,
}
use cartridge.Database.Driver.{Driver, Config}
use cartridge.Database.Manager.{
  Answers, Manager, session, new_manager, is_open, open_db, connect, get_connection, close,
  close_open, checkpoint_wal,
}
use cartridge.Database.Manager.Once.{
  Call, connects, get_connections, closes, checkpoints, step, run, IsSound, connect-IsSound,
  open_fresh-opened,
}

close_open-closed :
    (sql closing : Option String) (m : Manager)
    → (close_open sql closing m).1 ≡ none
    → (close_open sql closing m).0 ≡ record m { db = none; once_done = false }
unfolding close_open
close_open-closed (some e) closing m h = ground arith
close_open-closed none (some e) m h = ground arith
close_open-closed none none m h = refl

close-closed :
    (a : Answers) (m : Manager) (h : ℕ)
    → m.db ≡ some h
    → (close a m).1 ≡ none
    → (close a m).0 ≡ record m { db = none; once_done = false }
unfolding close
close-closed a m h d c = grind (arith, close_open-closed, d)

connect_new :
    (b : Answers) (m : Manager)
    → m.db ≡ none
    → m.once_done ≡ false
    → (open_db b m).1 ≡ none
    → (connect b m).1 ≡ session m.opened
unfolding connect open_db
connect_new b m d o e = grind (arith, open_fresh-opened, d, o)

reopened :
    (a b : Answers) (m : Manager) (h : ℕ)
    → m.db ≡ some h
    → (close a m).1 ≡ none
    → (open_db b (close a m).0).1 ≡ none
    → (connect b (close a m).0).1 ≡ session m.opened
reopened a b m h d c o =
    let z = close-closed a m h d c in
    (connect_new b (close a m).0 (ap (λ n. n.db) z) (ap (λ n. n.once_done) z) o)
    ∙ (ap (λ n. session n.opened) z)

close_open-IsSound :
    (sql closing : Option String) (m : Manager) → IsSound m → IsSound (close_open sql closing m).0
unfolding close_open
close_open-IsSound (some e) closing m s = s
close_open-IsSound none (some e) m s = s
close_open-IsSound none none m s = record {
  below = λ h d. ground arith;
  used = λ h d. ground arith;
}

if-IsSound {ℓ} :
    {B : Type ℓ} (b : Bool) (x y : Manager × B)
    → IsSound x.0
    → IsSound y.0
    → IsSound (if b then x else y).0
if-IsSound true x y s t = s
if-IsSound false x y s t = t

close-IsSound : (a : Answers) (m : Manager) → IsSound m → IsSound (close a m).0
unfolding close
close-IsSound a m s = if-IsSound (is_open m.db) _ _ (close_open-IsSound a.sql_db a.closing m s) s

step-IsSound : (c : Call) (m : Manager) → IsSound m → IsSound (step c m)
unfolding step get_connection checkpoint_wal
step-IsSound (connects a) m s = connect-IsSound a m s
step-IsSound (get_connections a) m s = connect-IsSound a m s
step-IsSound (closes a) m s = close-IsSound a m s
step-IsSound (checkpoints a mode) m s =
    if-IsSound (not m.driver.supports_checkpoint) _ _ s (connect-IsSound a m s)

run-IsSound : (cs : List Call) (m : Manager) → IsSound m → IsSound (run cs m)
unfolding run
run-IsSound [] m s = s
run-IsSound (c ∷ cs) m s = run-IsSound cs (step c m) (step-IsSound c m s)

new_manager-IsSound : (d : Driver) (cfg : Option Config) → IsSound (new_manager d cfg)
unfolding new_manager
new_manager-IsSound d cfg = record { below = λ h e. ground arith; used = λ h e. ground arith }

-- After any calls of a new manager, a Close of an open connection that succeeds lets the next
-- Connect open the database again: when that opening meets no error, Connect gives a connection with
-- another handle than the closed one.
pub close-connect :
    (d : Driver) (cfg : Option Config) (cs : List Call) (a b : Answers) (h : ℕ)
    → (run cs (new_manager d cfg)).db ≡ some h
    → (close a (run cs (new_manager d cfg))).1 ≡ none
    → (open_db b (close a (run cs (new_manager d cfg))).0).1 ≡ none
    → (k : ℕ) × ((connect b (close a (run cs (new_manager d cfg))).0).1 ≡ session k) × (h < k)
close-connect d cfg cs a b h e c o =
    let m = run cs (new_manager d cfg) in
    let s = run-IsSound cs _ (new_manager-IsSound d cfg) in
    (m.opened, reopened a b m h e c o, s.below h e)
