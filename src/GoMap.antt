-- ===== src/GoMap.antt =====
-- Go's built-in map as an association list. What the runtime chooses at each `range`, the order of
-- the keys, is an argument of the loops that use it: a list that `Visits` the map.
pub mod Laws
pub mod Unordered
use cartridge.Prelude.{
  ℕ, ◌≡◌, Bool, Option, none, some, List, [], ◌∷◌, map, Comparable, ◌==◌, if◌then◌else◌, contains,
  Distinct,
}

module _ {ℓ κ} {K : Type ℓ} {V : Type κ} ⦃e : Comparable K⦄ where
  -- v, ok := m[k]
  unfoldable pub lookup : K → List (K × V) → Option V
  lookup k [] = none
  lookup k ((j, v) ∷ m) = if j == k then some v else lookup k m

  -- m[k] = v: a present key keeps its place in the list.
  unfoldable pub insert : K → V → List (K × V) → List (K × V)
  insert k v [] = (k, v) ∷ []
  insert k v (entry ∷ m) =
      let rest = insert k v m in if entry.0 == k then (k, v) ∷ m else entry ∷ rest

  -- delete(m, k)
  unfoldable pub delete : K → List (K × V) → List (K × V)
  delete k [] = []
  delete k ((j, v) ∷ m) = let rest = delete k m in if j == k then rest else (j, v) ∷ rest

  abbrev pub keys : List (K × V) → List K
  keys m = map (λ p. p.0) m

  -- `visit` lists the keys of the map, each once.
  pub record Visits (visit : List K) (m : List (K × V)) : Type ℓ where
    pub distinct : Distinct visit
    pub same : (k : K) → contains visit k ≡ contains (keys m) k
