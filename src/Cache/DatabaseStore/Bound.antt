-- ===== src/Cache/DatabaseStore/Bound.antt =====
-- cache/database_store.go: how many rows a write leaves.
use cartridge.Prelude.{
  ℕ, suc, ◌+◌, ◌≡◌, ◌≤◌, ◌<◌, refl, ap, sym, subst, ◌∙◌, arith, String, Bool, true, false,
  if◌then◌else◌, none, List, [], length, string_comparable, Distinct, contains, All,
}
use cartridge.Prelude.Int.{ℤ, pos, leb_ℤ}
use cartridge.GoMap.{keys}
use cartridge.GoMap.Laws.{Distinct-insert}
use cartridge.Cache.DatabaseStore.{
  Row, DatabaseStore, saved, delete_rows, enforce_limit, write_with_ttl,
}
use cartridge.Cache.DatabaseStore.Rows.{chosen, enforce_limit-chosen, length-delete_rows}

-- What the subquery of enforceLimit gives when it is run: keys of the table, each once, and as many
-- as the limit is exceeded by.
pub record Selects (oldest : List String) (max : ℕ) (rows : List (String × Row)) : Type 0 where
  pub distinct : Distinct oldest
  pub present : All (λ k. contains (keys rows) k ≡ true) oldest
  pub count : max < length rows → length oldest + max ≡ length rows

chosen_bound :
    (unbounded within : Bool) (oldest : List String) (t : List (String × Row)) (max : ℕ)
    → unbounded ≡ false
    → (within ≡ true → length t ≤ max)
    → (within ≡ false → length (delete_rows oldest t) ≤ max)
    → length (delete_rows (if unbounded then [] else if within then [] else oldest) t) ≤ max
unfolding delete_rows
chosen_bound true w oldest t max u a b = ground arith
chosen_bound false true oldest t max u a b = a refl
chosen_bound false false oldest t max u a b = b refl

delete_rows_bound :
    (oldest : List String) (t : List (String × Row)) (max : ℕ)
    → Distinct (keys t)
    → Selects oldest max t
    → max < length t
    → length (delete_rows oldest t) ≤ max
delete_rows_bound oldest t max d c l =
    let n = length-delete_rows oldest t c.distinct d c.present in let k = c.count l in omega arith

enforce_limit-bounded :
    (oldest : List String) (max : ℕ) (m : DatabaseStore)
    → m.opts.max_entries ≡ pos (suc max)
    → Distinct (keys m.rows)
    → Selects oldest (suc max) m.rows
    → length (enforce_limit oldest m).rows ≤ suc max
unfolding chosen
enforce_limit-bounded oldest max m e d c =
    subst (λ x. length x.rows ≤ suc max) (sym (enforce_limit-chosen oldest m))
      (chosen_bound (leb_ℤ m.opts.max_entries (pos 0))
        (leb_ℤ (pos (length m.rows)) m.opts.max_entries) oldest m.rows (suc max)
        (ap (λ x. leb_ℤ x (pos 0)) e ∙ ground arith)
        (λ t. bound_of (ap (λ x. leb_ℤ (pos (length m.rows)) x) (sym e) ∙ t))
        (λ f.
          delete_rows_bound oldest m.rows (suc max) d c
            (past_of (ap (λ x. leb_ℤ (pos (length m.rows)) x) (sym e) ∙ f))))
  where
    bound_of : leb_ℤ (pos (length m.rows)) (pos (suc max)) ≡ true → length m.rows ≤ suc max
    bound_of t = ground (arith, t)

    past_of : leb_ℤ (pos (length m.rows)) (pos (suc max)) ≡ false → suc max < length m.rows
    past_of f = ground (arith, f)

-- A write into a store with a positive limit leaves at most that many rows, when the subquery gives
-- as many keys of the table as the limit is exceeded by, and each key once.
pub write_with_ttl-bounded :
    (oldest : List String) (now : ℤ) (key : String) (value : List ℕ) (ttl : ℤ) (max : ℕ)
    (s : DatabaseStore)
    → s.opts.max_entries ≡ pos (suc max)
    → Distinct (keys s.rows)
    → Selects oldest (suc max) (saved now key value ttl s).rows
    → length (write_with_ttl none oldest now key value ttl s).0.rows ≤ suc max
unfolding write_with_ttl chosen
write_with_ttl-bounded oldest now key value ttl max s e d c =
    enforce_limit-bounded oldest max (saved now key value ttl s) e (Distinct-insert key _ s.rows d)
      c
