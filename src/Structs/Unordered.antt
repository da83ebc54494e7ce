-- ===== src/Structs/Unordered.antt =====
-- structs/map.go: what Compose gives as a map, whatever the orders of its ranges.
use mathlib.Core.Quot
use cartridge.Prelude.{
  ◌≡◌, refl, sym, ◌∙◌, String, Option, none, List, [], ◌∷◌, ◌++◌, All, if◌then◌else◌, arith,
  string_comparable, Option-cases,
}
use cartridge.GoMap.{lookup, Visits}
use cartridge.GoMap.Laws.{is_some}
use cartridge.GoMap.Unordered.{unordered}
use cartridge.Structs.{compose, last_value, lookup-compose}

-- A range over a map: the order in which it visits the keys, and the map.
abbrev pub Range {ℓ} : Type ℓ → Type ℓ
Range V = List String × List (String × V)

abbrev pub IsRange {ℓ} : {V : Type ℓ} → Range V → Type 0
IsRange p = Visits p.0 p.1

module _ {ℓ} {V : Type ℓ} where
  last_value-append :
      (fs gs : List (Range V)) (k : String) (found : Option V)
      → last_value k (fs ++ gs) found ≡ last_value k gs (last_value k fs found)
  last_value-append [] gs k found = refl
  last_value-append ((v, m) ∷ fs) gs k found = last_value-append fs gs k _

  last_value-none :
      (gs : List (Range V)) (k : String) (found : Option V)
      → last_value k gs found
        ≡ (if is_some (last_value k gs none) then last_value k gs none else found)
  last_value-none [] k found = refl
  last_value-none ((v, m) ∷ gs) k found =
      let l = lookup k m in
      ground (
        arith,
        last_value-none gs k (if is_some l then l else found),
        last_value-none gs k (if is_some l then l else none),
        Option-cases l,
        Option-cases (last_value k gs none),
      )

  All-append :
      (fs gs : List (Range V))
      → All (IsRange {V = V}) fs
      → All (IsRange {V = V}) gs
      → All (IsRange {V = V}) (fs ++ gs)
  All-append [] gs f g = g
  All-append (x ∷ fs) gs (r, f) g = (r, All-append fs gs f g)

  -- Composing some maps, others, and then the two results gives the same map as composing all of
  -- them at once, in whatever orders the maps and the results are visited.
  pub compose-append :
      (fs gs : List (Range V)) (v w : List String)
      → All (IsRange {V = V}) fs
      → All (IsRange {V = V}) gs
      → Visits v (compose fs)
      → Visits w (compose gs)
      → unordered (compose ((v, compose fs) ∷ (w, compose gs) ∷ []))
        ≡ unordered (compose (fs ++ gs))
  compose-append fs gs v w f g i j = Quot.sound (λ k.
      lookup-compose ((v, compose fs) ∷ (w, compose gs) ∷ []) k (i, (j, tt))
      ∙ ground (
        arith,
        lookup-compose fs k f,
        lookup-compose gs k g,
        last_value-none gs k (last_value k fs none),
        Option-cases (last_value k fs none),
        Option-cases (last_value k gs none),
      )
      ∙ sym (last_value-append fs gs k none)
      ∙ sym (lookup-compose (fs ++ gs) k (All-append fs gs f g)))
