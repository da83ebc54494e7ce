-- ===== src/Cache/MemoryStore/Deletions.antt =====
-- The loops that delete: by prefix, and the batch of a cleanup.
use mathlib.Core.List.{append-nil, append_assoc}
use native.Mathlib.Nat.{add-zero}
use cartridge.Prelude.{
  ℕ, suc, ◌+◌, ◌-◌, ◌<◌, ◌≡◌, refl, sym, ◌∙◌, String, Bool, true, not, ◌&&◌, ◌||◌, ◌==◌, List, [],
  ◌∷◌, ◌++◌, length, take, keep, keep-keep, keep-congr, keep_all, has_prefix, contains, Distinct,
  arith, string_comparable, subst, ap, Bool-cases, inl, inr, max, length-append,
}
use cartridge.Prelude.Int.{ℤ, pos, pos_part, leb_ℤ}
use cartridge.GoMap.{lookup, delete, keys, Visits}
use cartridge.GoMap.Laws.{Distinct-delete, contains-keys-delete, length-delete}
use cartridge.Cache.MemoryStore.{
  Entry, MemoryStore, delete_key, delete_visited, delete_by_prefix, collect, sort_insert,
  sort_slice, delete_keys, cleanup,
}
use cartridge.Cache.MemoryStore.Queue.{
  Queue, without_prefix, without_keys, is_expired_in, expired_batch,
}
use cartridge.Cache.MemoryStore.Represents.{
  Represents, Matches-delete, contains-Matches, remove_from_order-keys,
}

pub delete_key-Represents :
    (k : String) {s : MemoryStore} {q : Queue}
    → Represents s q
    → Represents (delete_key k s) (delete k q)
unfolding delete_key
delete_key-Represents k {s} {q} r = record {
  agree = Matches-delete k r.agree;
  order = rw r.order (remove_from_order-keys k q r.agree.distinct);
}

delete-keep : (k : String) (q : Queue) → delete k q ≡ keep (λ p. not (k == p.0)) q
unfolding delete
delete-keep k [] = refl
delete-keep k ((j, v) ∷ q) =
    ground
      (arith, string_comparable.equal_iff j k, string_comparable.equal_iff k j, delete-keep k q)

-- Deleting a key and then keeping by a test keeps by both.
keep-delete :
    (p : String → Bool) (k : String) (q : Queue)
    → keep (λ e. not (p e.0)) (delete k q) ≡ keep (λ e. not (k == e.0 || p e.0)) q
keep-delete p k q = rw (delete-keep k q) (
    keep-keep (λ e. not (p e.0)) (λ e. not (k == e.0)) q
    ∙ keep-congr (λ e. not (k == e.0) && not (p e.0)) (λ e. not (k == e.0 || p e.0)) q
        (λ e. ground arith))

pub delete_keys-Represents :
    (ks : List String) {s : MemoryStore} {q : Queue}
    → Represents s q
    → Represents (delete_keys ks s) (without_keys ks q)
unfolding delete_keys
delete_keys-Represents [] {s} {q} r = rw keep_all r
delete_keys-Represents (k ∷ ks) {s} {q} r =
    rw (← keep-delete (contains ks) k q) (delete_keys-Represents ks (delete_key-Represents k r))

contains-sort_insert :
    (entries : List (String × Entry)) (key : String) (ks : List String) (k : String)
    → contains (sort_insert entries key ks) k ≡ (key == k || contains ks k)
unfolding sort_insert
contains-sort_insert entries key [] k = refl
contains-sort_insert entries key (j ∷ ks) k = ground (arith, contains-sort_insert entries key ks k)

contains-sort_slice :
    (entries : List (String × Entry)) (ks : List String) (k : String)
    → contains (sort_slice entries ks) k ≡ contains ks k
unfolding sort_slice
contains-sort_slice entries [] k = refl
contains-sort_slice entries (j ∷ ks) k =
    rw (contains-sort_insert entries j (sort_slice entries ks) k, contains-sort_slice entries ks k)
      refl

without_keys-congr :
    (ks ls : List String) (q : Queue)
    → ((k : String) → contains ks k ≡ contains ls k)
    → without_keys ks q ≡ without_keys ls q
without_keys-congr ks ls q h =
    keep-congr (λ p. not (contains ks p.0)) (λ p. not (contains ls p.0)) q (λ p. ap not (h p.0))

-- The first loop of cleanup collects a bounded prefix of the expired keys.
collect-take :
    (now batch : ℤ) (q : Queue) (entries : List (String × Entry)) (acc visit : List String)
    → ((k : String) → lookup k entries ≡ lookup k q)
    → length acc < max 1 (pos_part batch)
    → collect now batch entries acc visit
      ≡ acc ++ take (max 1 (pos_part batch) - length acc) (keep (is_expired_in now q) visit)
unfolding collect
collect-take now batch q entries acc [] same room =
    let n : max 1 (pos_part batch) - length acc ≡ suc (max 1 (pos_part batch) - length acc - 1) =
      omega arith in
    rw (n, append-nil) refl
collect-take now batch q entries acc (k ∷ visit) same room =
    elim (Bool-cases (is_expired_in now q k)) [
      | inr live ↦ rw (same k, live) (collect-take now batch q entries acc visit same room)
      | inl dead ↦ elim (Bool-cases (leb_ℤ batch (pos (length (acc ++ k ∷ []))))) [
        | inl full ↦
            let n : max 1 (pos_part batch) - length acc ≡ 1 =
              ground (arith, length-append acc (k ∷ [])) in
            rw (same k, dead, full, n) refl
        | inr more ↦
            let n : max 1 (pos_part batch) - length acc
                ≡ suc (max 1 (pos_part batch) - length (acc ++ k ∷ [])) =
              ground (arith, length-append acc (k ∷ [])) in
            rw (same k, dead, more, n)
              (collect-take now batch q entries (acc ++ k ∷ []) visit same
                  (ground (arith, length-append acc (k ∷ [])))
                ∙ append_assoc acc (k ∷ []) _)
      ]
    ]

-- A cleanup removes the expired batch from the queue.
pub cleanup-Represents :
    (now : ℤ) (visit : List String) {s : MemoryStore} {q : Queue}
    → Represents s q
    → Represents
        (cleanup now visit s)
        (without_keys (expired_batch now s.opts.cleanup_batch_size visit q) q)
unfolding cleanup expired_batch
cleanup-Represents now visit {s} {q} r =
    let batch = s.opts.cleanup_batch_size in
    let taken = collect now batch s.entries [] visit in
    let e : taken ≡ expired_batch now batch visit q =
      collect-take now batch q s.entries [] visit r.agree.found (omega arith)
      ∙ ap (λ (m : ℕ). take m (keep (is_expired_in now q) visit)) (omega arith) in
    subst (Represents (cleanup now visit s))
      (without_keys-congr (sort_slice s.entries taken) (expired_batch now batch visit q) q
        (λ k. contains-sort_slice s.entries taken k ∙ ap (λ ks. contains ks k) e))
      (delete_keys-Represents (sort_slice s.entries taken) r)

-- What the loop of DeleteByPrefix has visited is gone where it has the prefix.
delete_visited-Represents :
    (prefix : String) (visit : List String) {s : MemoryStore} (n : ℕ) {q : Queue}
    → Represents s q
    → Represents
        (delete_visited prefix visit s n).0
        (keep (λ p. not (contains visit p.0 && has_prefix p.0 prefix)) q)
unfolding delete_visited
delete_visited-Represents prefix [] n r = rw keep_all r
delete_visited-Represents prefix (k ∷ visit) {s} n {q} r = elim (Bool-cases (has_prefix k prefix)) [
  | inl hit ↦ rw hit (
      subst (Represents (delete_visited prefix visit (delete_key k s) (suc n)).0)
        (keep-delete (λ j. contains visit j && has_prefix j prefix) k q
          ∙ keep-congr _ _ q (λ p. ground (arith, string_comparable.equal_iff k p.0)))
        (delete_visited-Represents prefix visit (suc n) (delete_key-Represents k r)))
  | inr miss ↦ rw miss (
      subst (Represents (delete_visited prefix visit s n).0)
        (keep-congr _ _ q (λ p. ground (arith, string_comparable.equal_iff k p.0)))
        (delete_visited-Represents prefix visit n r))
]

keep-visited :
    (f g : String → Bool) (q : Queue)
    → ((k : String) → contains (keys q) k ≡ true → f k ≡ true)
    → keep (λ p. not (f p.0 && g p.0)) q ≡ keep (λ p. not (g p.0)) q
keep-visited f g [] h = refl
keep-visited f g ((j, v) ∷ q) h =
    ground
      (arith, h j, string_comparable.equal_iff j j, keep-visited f g q (λ k m. h k (ground arith)))

-- DeleteByPrefix removes the keys with the prefix, in whatever order `range` visits them.
pub delete_by_prefix-Represents :
    (visit : List String) (prefix : String) {s : MemoryStore} {q : Queue}
    → Represents s q
    → Visits visit s.entries
    → Represents (delete_by_prefix visit prefix s).0 (without_prefix prefix q)
unfolding delete_by_prefix
delete_by_prefix-Represents visit prefix {s} {q} r v =
    subst (Represents (delete_visited prefix visit s 0).0)
      (keep-visited (contains visit) (λ k. has_prefix k prefix) q
        (λ k m. v.same k ∙ contains-Matches r.agree k ∙ m))
      (delete_visited-Represents prefix visit 0 r)

-- The count goes up by one for each entry that goes.
delete_visited-count :
    (prefix : String) (visit : List String) (s : MemoryStore) (n : ℕ)
    → Distinct (keys s.entries)
    → Distinct visit
    → ((k : String) → contains visit k ≡ true → contains (keys s.entries) k ≡ true)
    → length (delete_visited prefix visit s n).0.entries + (delete_visited prefix visit s n).1
      ≡ length s.entries + n
unfolding delete_visited delete_key
delete_visited-count prefix [] s n d dv h = refl
delete_visited-count prefix (k ∷ visit) s n d dv h = elim (Bool-cases (has_prefix k prefix)) [
  | inl hit ↦ rw hit (
      delete_visited-count prefix visit (delete_key k s) (suc n) (Distinct-delete k s.entries d)
        dv.1
        (λ j m.
          ground (arith, h j, contains-keys-delete k j s.entries, string_comparable.equal_iff k j))
      ∙ ground (arith, length-delete k s.entries d, h k, string_comparable.equal_iff k k))
  | inr miss ↦ rw miss (delete_visited-count prefix visit s n d dv.1 (λ j m. h j (ground arith)))
]

pub delete_by_prefix-count :
    (visit : List String) (prefix : String) (s : MemoryStore)
    → Distinct (keys s.entries)
    → Visits visit s.entries
    → length (delete_by_prefix visit prefix s).0.entries + (delete_by_prefix visit prefix s).1
      ≡ length s.entries
unfolding delete_by_prefix
delete_by_prefix-count visit prefix s d v =
    delete_visited-count prefix visit s 0 d v.distinct (λ k m. sym (v.same k) ∙ m) ∙ add-zero _
