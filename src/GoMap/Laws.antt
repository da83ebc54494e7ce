-- ===== src/GoMap/Laws.antt =====
-- Laws of the map operations: what a lookup finds, which keys there are, and how many.
use cartridge.Prelude.{
  suc, ◌≤◌, ◌≡◌, refl, Bool, true, false, not, ◌&&◌, ◌||◌, Option, none, some, List, [], ◌∷◌,
  Comparable, ◌==◌, if◌then◌else◌, arith, contains, Distinct, length,
}
use cartridge.GoMap.{lookup, insert, delete, keys}

abbrev pub is_some {ℓ} : {A : Type ℓ} → Option A → Bool
is_some none = false
is_some (some _) = true

module _ {ℓ κ} {K : Type ℓ} {V : Type κ} ⦃e : Comparable K⦄ where
  pub lookup-insert :
      (key asked : K) (value : V) (m : List (K × V))
      → lookup asked (insert key value m) ≡ (if key == asked then some value else lookup asked m)
  unfolding lookup insert
  lookup-insert key asked value [] = refl
  lookup-insert key asked value ((first, w) ∷ m) = ground (
    arith,
    lookup-insert key asked value m,
    e.equal_iff first key,
    e.equal_iff first asked,
    e.equal_iff key asked,
  )

  pub lookup-delete :
      (k j : K) (m : List (K × V)) → lookup j (delete k m) ≡ (if k == j then none else lookup j m)
  unfolding lookup delete
  lookup-delete k j [] = ground arith
  lookup-delete k j ((i, w) ∷ m) =
      ground (arith, e.equal_iff k j, e.equal_iff i k, e.equal_iff i j, lookup-delete k j m)

  pub contains-keys : (k : K) (m : List (K × V)) → contains (keys m) k ≡ is_some (lookup k m)
  unfolding lookup
  contains-keys k [] = refl
  contains-keys k ((i, w) ∷ m) = ground (arith, contains-keys k m)

  pub contains-keys-insert :
      (k j : K) (v : V) (m : List (K × V))
      → contains (keys (insert k v m)) j ≡ (k == j || contains (keys m) j)
  unfolding insert
  contains-keys-insert k j v [] = ground arith
  contains-keys-insert k j v ((i, w) ∷ m) =
      ground
        (arith, e.equal_iff k j, e.equal_iff i k, e.equal_iff i j, contains-keys-insert k j v m)

  pub contains-keys-delete :
      (k j : K) (m : List (K × V))
      → contains (keys (delete k m)) j ≡ (not (k == j) && contains (keys m) j)
  unfolding delete
  contains-keys-delete k j [] = ground arith
  contains-keys-delete k j ((i, w) ∷ m) =
      ground (arith, e.equal_iff k j, e.equal_iff i k, e.equal_iff i j, contains-keys-delete k j m)

  pub Distinct-insert :
      (k : K) (v : V) (m : List (K × V)) → Distinct (keys m) → Distinct (keys (insert k v m))
  unfolding insert
  Distinct-insert k v [] d = (refl, tt)
  Distinct-insert k v ((i, w) ∷ m) d =
      ground (
        arith,
        e.equal_iff i k,
        e.equal_iff k i,
        contains-keys-insert k i v m,
        Distinct-insert k v m,
      )

  pub Distinct-delete :
      (k : K) (m : List (K × V)) → Distinct (keys m) → Distinct (keys (delete k m))
  unfolding delete
  Distinct-delete k [] d = d
  Distinct-delete k ((i, w) ∷ m) d = ground (arith, contains-keys-delete k i m, Distinct-delete k m)

  pub length-insert :
      (k : K) (v : V) (m : List (K × V))
      → length (insert k v m) ≡ (if contains (keys m) k then length m else suc (length m))
  unfolding insert
  length-insert k v [] = refl
  length-insert k v ((i, w) ∷ m) = ground (arith, length-insert k v m)

  pub delete_absent : (k : K) (m : List (K × V)) → contains (keys m) k ≡ false → delete k m ≡ m
  unfolding delete
  delete_absent k [] h = refl
  delete_absent k ((i, w) ∷ m) h = ground (arith, delete_absent k m)

  pub length-delete :
      (k : K) (m : List (K × V))
      → Distinct (keys m)
      → length m ≡ (if contains (keys m) k then suc (length (delete k m)) else length (delete k m))
  unfolding delete
  length-delete k [] d = refl
  length-delete k ((i, w) ∷ m) d =
      ground (arith, e.equal_iff i k, length-delete k m, delete_absent k m)

  pub length-delete-le : (k : K) (m : List (K × V)) → length (delete k m) ≤ length m
  unfolding delete
  length-delete-le k [] = omega arith
  length-delete-le k ((i, w) ∷ m) = ground (arith, length-delete-le k m)
