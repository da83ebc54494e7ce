-- ===== src/Structs.antt =====
-- structs/map.go: structs as maps, and maps put over one another. What package reflect tells of a
-- struct is a list of its fields' tags and values; the order of each range over a map comes with it.
pub mod Unordered
mod Tests
use cartridge.Prelude.{
  ◌≡◌, refl, ap, ◌∙◌, String, Bool, true, false, not, ◌&&◌, Option, none, some, List, [], ◌∷◌, ◌==◌,
  All, if◌then◌else◌, arith, contains, split_at, string_comparable, Option-cases,
}
use cartridge.GoMap.{lookup, insert, Visits}
use cartridge.GoMap.Laws.{is_some, lookup-insert, contains-keys}

-- strings.Split(tag, ",")[0]
unfoldable pub field_name : String → String
unfolding split_at
field_name tag = elim (split_at b',' tag) [ [] ↦ "" | part ∷ parts ↦ part ]

module _ {ℓ} {V : Type ℓ} where
  unfoldable pub map_struct : List (String × V) → List (String × V) → List (String × V)
  unfolding field_name
  map_struct [] out = out
  map_struct ((tag, value) ∷ fields) out =
      let name = field_name tag in
      map_struct fields (
        if not (tag == "") && not (name == "") && not (name == "-")
        then insert name value out
        else out)

  abbrev put : String → Option V → List (String × V) → List (String × V)
  put key none out = out
  put key (some v) out = insert key v out

  unfoldable pub compose_map :
      List String → List (String × V) → List (String × V) → List (String × V)
  compose_map [] m out = out
  compose_map (key ∷ visit) m out = compose_map visit m (put key (lookup key m) out)

  -- Each map with the order in which it is visited.
  unfoldable pub compose_onto :
      List (List String × List (String × V)) → List (String × V) → List (String × V)
  unfolding compose_map
  compose_onto [] out = out
  compose_onto ((visit, m) ∷ maps) out = compose_onto maps (compose_map visit m out)

  unfoldable pub compose : List (List String × List (String × V)) → List (String × V)
  unfolding compose_onto
  compose maps = compose_onto maps []

  -- The value of the last map that has the key.
  abbrev pub last_value : String → List (List String × List (String × V)) → Option V → Option V
  last_value key [] found = found
  last_value key ((visit, m) ∷ maps) found =
      last_value key maps (if is_some (lookup key m) then lookup key m else found)

  lookup-put :
      (key k : String) (v : Option V) (out : List (String × V))
      → lookup k (put key v out) ≡ (if key == k && is_some v then v else lookup k out)
  lookup-put key k none out = ground arith
  lookup-put key k (some v) out = ground (arith, lookup-insert key k v out)

  lookup-compose_map :
      (visit : List String) (m out : List (String × V)) (k : String)
      → lookup k (compose_map visit m out)
        ≡ (if contains visit k && is_some (lookup k m) then lookup k m else lookup k out)
  unfolding compose_map
  lookup-compose_map [] m out k = refl
  lookup-compose_map (key ∷ visit) m out k = ground (
    arith,
    lookup-compose_map visit m (put key (lookup key m) out) k,
    lookup-put key k (lookup key m) out,
    string_comparable.equal_iff key k,
  )

  lookup-compose_onto :
      (maps : List (List String × List (String × V))) (out : List (String × V)) (k : String)
      → All (λ p. Visits p.0 p.1) maps
      → lookup k (compose_onto maps out) ≡ last_value k maps (lookup k out)
  unfolding compose_onto
  lookup-compose_onto [] out k h = refl
  lookup-compose_onto ((visit, m) ∷ maps) out k h =
      let seen = h.0.same k ∙ contains-keys k m in
      lookup-compose_onto maps (compose_map visit m out) k h.1
      ∙ ap (last_value k maps) (ground (arith, lookup-compose_map visit m out k, seen))

  -- Compose gives each key the value of the last map that has it, and no key but those of the maps,
  -- in whatever order the maps are visited.
  pub lookup-compose :
      (maps : List (List String × List (String × V))) (k : String)
      → All (λ p. Visits p.0 p.1) maps
      → lookup k (compose maps) ≡ last_value k maps none
  unfolding compose lookup
  lookup-compose maps k h = lookup-compose_onto maps [] k h
