-- ===== src/Cache/Generic/Invalidation.antt =====
-- Invalidation by prefix: which entries go, and the count that is returned.
use native.Mathlib.Nat.{add-zero}
use cartridge.Prelude.{
  ℕ, suc, ◌+◌, ◌≡◌, refl, sym, ◌∙◌, Bool, true, ◌&&◌, Option, none, List, [], ◌∷◌, Comparable,
  String, if◌then◌else◌, arith, Bool-cases, inl, inr, length, contains, Distinct,
}
use cartridge.GoMap.{lookup, delete, keys, Visits}
use cartridge.GoMap.Laws.{
  lookup-delete, contains-keys, contains-keys-delete, length-delete, Distinct-delete,
}
use cartridge.Cache.Generic.{
  CacheEntry, Cache, key_has_prefix, invalidate_visited, invalidate_by_prefix,
}

module _ {ℓ} {K V : Type ℓ} ⦃e : Comparable K⦄ where
  invalidate_visited-lookup :
      (hit : K → Bool) (visit : List K) (m : List (K × CacheEntry V)) (n : ℕ) (j : K)
      → lookup j (invalidate_visited hit visit m n).0
        ≡ (if contains visit j && hit j then none else lookup j m)
  unfolding invalidate_visited
  invalidate_visited-lookup hit [] m n j = refl
  invalidate_visited-lookup hit (k ∷ visit) m n j = ground (
    arith,
    invalidate_visited-lookup hit visit (delete k m) (suc n) j,
    invalidate_visited-lookup hit visit m n j,
    lookup-delete k j m,
    e.equal_iff k j,
  )

  invalidate_visited-count :
      (hit : K → Bool) (visit : List K) (m : List (K × CacheEntry V)) (n : ℕ)
      → Distinct (keys m)
      → Distinct visit
      → ((k : K) → contains visit k ≡ true → contains (keys m) k ≡ true)
      → length (invalidate_visited hit visit m n).0 + (invalidate_visited hit visit m n).1
        ≡ length m + n
  unfolding invalidate_visited
  invalidate_visited-count hit [] m n d dv h = refl
  invalidate_visited-count hit (k ∷ visit) m n d dv h = elim (Bool-cases (hit k)) [
    | inl gone ↦ rw gone (
        invalidate_visited-count hit visit (delete k m) (suc n) (Distinct-delete k m d) dv.1
          (λ j c. ground (arith, h j, contains-keys-delete k j m, e.equal_iff k j))
        ∙ ground (arith, length-delete k m d, h k, e.equal_iff k k))
    | inr kept ↦ rw kept (invalidate_visited-count hit visit m n d dv.1 (λ j c. h j (ground arith)))
  ]

  -- Invalidating a prefix removes the entries whose key, as a string, has it, keeps every other
  -- entry, and returns how many entries it removed, in whatever order `range` visits the map.
  pub lookup-invalidate_by_prefix :
      (key_str : K → Option String) (visit : List K) (prefix : String) (c : Cache K V) (key : K)
      → Distinct (keys c.entries)
      → Visits visit c.entries
      → let (c', count) = invalidate_by_prefix key_str visit prefix c in
        (lookup key c'.entries
          ≡ (if key_has_prefix key_str prefix key then none else lookup key c.entries))
        × (length c'.entries + count ≡ length c.entries)
  unfolding invalidate_by_prefix
  lookup-invalidate_by_prefix key_str visit prefix c key d v = (
    ground (
      arith,
      invalidate_visited-lookup (key_has_prefix key_str prefix) visit c.entries 0 key,
      v.same key,
      contains-keys key c.entries,
    ),
    invalidate_visited-count (key_has_prefix key_str prefix) visit c.entries 0 d v.distinct
          (λ k m. sym (v.same k) ∙ m)
        ∙ add-zero _,
  )
