-- ===== src/Cache/DatabaseStore/Rows.antt =====
-- What a store in a table reads after its operations, and its bound.
use cartridge.Prelude.{
  ℕ, ◌+◌, ◌≡◌, refl, ap, ◌∙◌, arith, String, Bool, true, false, ◌==◌, if◌then◌else◌, Option, none,
  some, List, [], ◌∷◌, length, keep, string_comparable, Distinct, contains, All,
}
use cartridge.Prelude.Int.{ℤ, pos, ◌+ℤ◌, ltb_ℤ, leb_ℤ}
use cartridge.GoMap.{lookup, insert, delete, keys}
use cartridge.GoMap.Laws.{
  lookup-insert, lookup-delete, length-delete, Distinct-delete, contains-keys-delete, is_some,
}
use cartridge.Cache.Options.{Options}
use cartridge.Cache.DatabaseStore.{
  Row, DatabaseStore, live, saved, read, exist, delete_rows, enforce_limit, write_with_ttl,
  milliseconds, delete_by_prefix,
}

is_some-live :
    (now : ℤ) (found : Option Row)
    → (elim found [ none ↦ false | some row ↦ ltb_ℤ now row.expires_at ])
      ≡ is_some (elim found [ none ↦ none | some row ↦ live now row ])
is_some-live now none = refl
is_some-live now (some row) = ground arith

-- Exist and Read agree: a key exists exactly when it reads as a value, at the same time and with the
-- same error of the query.
pub exist-read :
    (err : Option String) (now : ℤ) (key : String) (s : DatabaseStore)
    → exist err now key s ≡ is_some (read err now key s)
unfolding exist read
exist-read (some e) now key s = ground arith
exist-read none now key s = is_some-live now (lookup key s.rows)

lookup-delete_rows :
    (ks : List String) (j : String) (t : List (String × Row))
    → lookup j (delete_rows ks t) ≡ (if contains ks j then none else lookup j t)
unfolding delete_rows
lookup-delete_rows [] j t = refl
lookup-delete_rows (k ∷ ks) j t =
    ground (arith, lookup-delete_rows ks j (delete k t), lookup-delete k j t)

All-contains-delete :
    (k : String) (ks : List String) (t : List (String × Row))
    → contains ks k ≡ false
    → All (λ j. contains (keys t) j ≡ true) ks
    → All (λ j. contains (keys (delete k t)) j ≡ true) ks
All-contains-delete k [] t h a = tt
All-contains-delete k (j ∷ ks) t h (a, b) = (
  ground (
    arith,
    contains-keys-delete k j t,
    string_comparable.equal_iff j k,
    string_comparable.equal_iff k j,
  ),
  All-contains-delete k ks t (ground arith) b,
)

pub length-delete_rows :
    (ks : List String) (t : List (String × Row))
    → Distinct ks
    → Distinct (keys t)
    → All (λ j. contains (keys t) j ≡ true) ks
    → length (delete_rows ks t) + length ks ≡ length t
unfolding delete_rows
length-delete_rows [] t d e a = omega arith
length-delete_rows (k ∷ ks) t (n, d) e (h, a) =
    let rest =
      length-delete_rows ks (delete k t) d (Distinct-delete k t e)
        (All-contains-delete k ks t n a) in
    ground (arith, length-delete k t e)

-- The keys that enforceLimit deletes.
unfoldable pub chosen : List String → Options → List (String × Row) → List String
chosen oldest opts rows =
    if leb_ℤ opts.max_entries (pos 0)
    then []
    else if leb_ℤ (pos (length rows)) opts.max_entries
    then []
    else oldest

delete_if :
    (unbounded within : Bool) (oldest : List String) (s : DatabaseStore)
    → (if unbounded then s else if within then s else record s { rows = delete_rows oldest s.rows })
      ≡ record s {
        rows = delete_rows (if unbounded then [] else if within then [] else oldest) s.rows;
      }
unfolding delete_rows
delete_if true w oldest s = refl
delete_if false true oldest s = refl
delete_if false false oldest s = refl

pub enforce_limit-chosen :
    (oldest : List String) (s : DatabaseStore)
    → enforce_limit oldest s ≡ record s { rows = delete_rows (chosen oldest s.opts s.rows) s.rows }
unfolding enforce_limit chosen
enforce_limit-chosen oldest s =
    delete_if (leb_ℤ s.opts.max_entries (pos 0)) (leb_ℤ (pos (length s.rows)) s.opts.max_entries)
      oldest s

read_at : ℤ → String → List (String × Row) → Option (List ℕ)
read_at now key rows = elim (lookup key rows) [ none ↦ none | some row ↦ live now row ]

read_at-delete_rows :
    (now : ℤ) (key : String) (ks : List String) (t : List (String × Row))
    → read_at now key (delete_rows ks t) ≡ (if contains ks key then none else read_at now key t)
unfolding read_at
read_at-delete_rows now key ks t =
    ap (λ f. elim f [ none ↦ none | some row ↦ live now row ]) (lookup-delete_rows ks key t)
    ∙ choose (contains ks key) (lookup key t)
  where
    choose :
        (b : Bool) (f : Option Row)
        → elim (if b then none else f) [ none ↦ none | some row ↦ live now row ]
          ≡ (if b then none else elim f [ none ↦ none | some row ↦ live now row ])
    choose true f = refl
    choose false f = refl

read_at-insert :
    (now : ℤ) (asked key : String) (row : Row) (t : List (String × Row))
    → read_at now asked (insert key row t)
      ≡ (if key == asked then live now row else read_at now asked t)
unfolding read_at
read_at-insert now asked key row t =
    ap (λ f. elim f [ none ↦ none | some row ↦ live now row ]) (lookup-insert key asked row t)
    ∙ choose (key == asked) (lookup asked t)
  where
    choose :
        (b : Bool) (f : Option Row)
        → elim (if b then some row else f) [ none ↦ none | some row ↦ live now row ]
          ≡ (if b then live now row else elim f [ none ↦ none | some row ↦ live now row ])
    choose true f = refl
    choose false f = refl

-- After a successful write, a read without an error gives nothing for a key that the eviction took,
-- which can be the written one; else the written value for the written key until the time to live
-- in whole milliseconds is over and nothing from then on; and for any other key what it gave before.
pub write_with_ttl-read :
    (oldest : List String) (now : ℤ) (key : String) (value : List ℕ) (ttl at : ℤ) (asked : String)
    (s : DatabaseStore)
    → read none at asked (write_with_ttl none oldest now key value ttl s).0 ≡ (
        if contains (chosen oldest s.opts (saved now key value ttl s).rows) asked
        then none
        else if key == asked
        then (if ltb_ℤ at (now +ℤ milliseconds ttl) then some value else none)
        else read none at asked s)
unfolding read write_with_ttl read_at
write_with_ttl-read oldest now key value ttl at asked s =
    let m = saved now key value ttl s in
    ap (λ x. read_at at asked x.rows) (enforce_limit-chosen oldest m)
    ∙ read_at-delete_rows at asked (chosen oldest s.opts m.rows) m.rows
    ∙ ap (λ r. if contains (chosen oldest s.opts m.rows) asked then none else r)
        (read_at-insert at asked key
          (record { value = value; expires_at = now +ℤ milliseconds ttl; created_at = now }) s.rows)

keep-counts :
    (f : String → Bool) (t : List (String × Row))
    → length (keep (λ p. f p.0) t) + length (keep (λ p. if f p.0 then false else true) t) ≡ length t
keep-counts f [] = refl
keep-counts f (p ∷ t) = ground (arith, keep-counts f t)

lookup-keep :
    (f : String → Bool) (j : String) (t : List (String × Row))
    → lookup j (keep (λ p. if f p.0 then false else true) t) ≡ (if f j then none else lookup j t)
unfolding lookup
lookup-keep f j [] = ground arith
lookup-keep f j ((k, row) ∷ t) = ground (arith, lookup-keep f j t, string_comparable.equal_iff k j)

-- DeleteByPrefix, when its statement meets no error, removes the rows whose keys match the pattern
-- and returns their number: a matching key then reads as absent, every other key as before, and the
-- number with the rows that are left makes the rows before.
pub read-delete_matching :
    (matching : String → Bool) (at : ℤ) (asked : String) (s : DatabaseStore)
    → (read none at asked (delete_by_prefix none matching s).0
        ≡ (if matching asked then none else read none at asked s))
      × ((delete_by_prefix none matching s).1 + length (delete_by_prefix none matching s).0.rows
          ≡ length s.rows)
unfolding read delete_by_prefix read_at
read-delete_matching matching at asked s = (
  ap (λ f. elim f [ none ↦ none | some row ↦ live at row ]) (lookup-keep matching asked s.rows)
      ∙ choose (matching asked) (lookup asked s.rows),
  keep-counts matching s.rows,
)
  where
    choose :
        (b : Bool) (f : Option Row)
        → elim (if b then none else f) [ none ↦ none | some row ↦ live at row ]
          ≡ (if b then none else elim f [ none ↦ none | some row ↦ live at row ])
    choose true f = refl
    choose false f = refl
