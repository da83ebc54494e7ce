-- ===== src/Cache/MemoryStore/Reads.antt =====
-- What reads see after writes, deletions and cleanups of a memory store.
use cartridge.Prelude.{
  ℕ, zero, suc, ◌≤◌, ◌≡◌, ◌≢◌, ◌↔◌, refl, sym, ap, subst, ◌∙◌, String, true, false, if◌then◌else◌,
  Option, none, some, List, [], ◌∷◌, ◌++◌, length, drop, contains, arith, string_comparable, max,
  Bool-cases, Option-cases, inl, inr, length-append,
}
use cartridge.Prelude.Int.{ℤ, pos, ◌+ℤ◌, ◌≤ℤ◌, ◌<ℤ◌, ltb_ℤ, eq_of_parts}
use cartridge.GoMap.{insert, keys, lookup}
use cartridge.GoMap.Laws.{lookup-insert, length-insert, contains-keys, is_some}
use cartridge.Cache.MemoryStore.{Entry, MemoryStore, read, exist, unexpired, write_with_ttl}
use cartridge.Cache.MemoryStore.Queue.{Queue, excess, push}
use cartridge.Cache.MemoryStore.Represents.{Represents, write_with_ttl-Represents}

-- A store within its bound, if it has one, and in step with its order list.
pub record IsValid (s : MemoryStore) (q : Queue) : Type 0 where
  pub represents : Represents s q
  pub fits : pos 0 <ℤ s.opts.max_entries → pos (length q) ≤ℤ s.opts.max_entries

read_of_lookup :
    (t : ℤ) (k : String) (s : MemoryStore) (q : Queue) (e : Option Entry)
    → lookup k s.entries ≡ lookup k q
    → lookup k q ≡ e
    → read t k s ≡ (elim e [ none ↦ none | some x ↦ unexpired t x ])
unfolding read
read_of_lookup t k s q e a b = ground arith

insert-absent :
    (k : String) (v : Entry) (q : Queue)
    → contains (keys q) k ≡ false
    → insert k v q ≡ q ++ (k, v) ∷ []
unfolding insert
insert-absent k v [] h = refl
insert-absent k v ((j, w) ∷ q) h = ground (arith, insert-absent k v q)

lookup-last :
    (k : String) (v : Entry) (n : ℕ) (q : Queue)
    → contains (keys q) k ≡ false
    → n ≤ length q
    → lookup k (drop n (q ++ (k, v) ∷ [])) ≡ some v
unfolding lookup
lookup-last k v zero [] h b = ground (arith, string_comparable.equal_iff k k)
lookup-last k v (suc n) [] h b = absurd (omega arith)
lookup-last k v zero ((j, w) ∷ q) h b = ground (arith, lookup-last k v zero q)
lookup-last k v (suc n) ((j, w) ∷ q) h b = lookup-last k v n q (ground arith) (omega arith)

lookup-push_self :
    (max : ℤ) (k : String) (v : Entry) (q : Queue)
    → (pos 0 <ℤ max → pos (length q) ≤ℤ max)
    → lookup k (push max k v q) ≡ some v
unfolding push
lookup-push_self max k v q fits = elim (Bool-cases (contains (keys q) k)) [
  | inl old ↦
      let n : excess max (length (insert k v q)) ≡ 0 = ground (arith, fits, length-insert k v q) in
      rw n (ground (arith, lookup-insert k k v q, string_comparable.equal_iff k k))
  | inr new ↦ rw (insert-absent k v q new) (
      lookup-last k v (excess max (length (q ++ (k, v) ∷ []))) q new
        (ground (arith, length-append q ((k, v) ∷ []))))
]

-- In a store within its bound, a key that was just written reads as the written value until its
-- time to live has passed, and as absent after that.
pub read-write_with_ttl :
    (now t ttl : ℤ) (key : String) (value : List ℕ) {s : MemoryStore} {q : Queue}
    → IsValid s q
    → read t key (write_with_ttl now key value ttl s)
      ≡ (if ltb_ℤ (now +ℤ ttl) t then none else some value)
read-write_with_ttl now t ttl key value {s} {q} v =
    let entry : Entry = record { value = value; expires_at = now +ℤ ttl; created_at = now } in
    let q' : Queue = push s.opts.max_entries key entry q in
    let r : Represents (write_with_ttl now key value ttl s) q' =
      write_with_ttl-Represents now key value ttl v.represents in
    read_of_lookup t key (write_with_ttl now key value ttl s) q' (some entry) (r.agree.found key)
      (lookup-push_self s.opts.max_entries key entry q v.fits)

lookup-append_ne :
    (j k : String) (v : Entry) (q : Queue) → j ≢ k → lookup j (q ++ (k, v) ∷ []) ≡ lookup j q
unfolding lookup
lookup-append_ne j k v [] h = ground (arith, string_comparable.equal_iff k j)
lookup-append_ne j k v ((i, w) ∷ q) h = ground (arith, lookup-append_ne j k v q h)

lookup-cons_ne : (j k : String) (v : Entry) (q : Queue) → j ≢ k → lookup j ((k, v) ∷ q) ≡ lookup j q
unfolding lookup
lookup-cons_ne j k v q h = ground (arith, string_comparable.equal_iff k j)

keys-append : (q : Queue) (e : String × Entry) → keys (q ++ e ∷ []) ≡ keys q ++ e.0 ∷ []
keys-append [] e = refl
keys-append (x ∷ q) e = ap (◌∷◌ x.0) (keys-append q e)

evicted :
    (t : ℤ) (oldest key : String) (rest : List String) (entry : Entry) (q : Queue)
    (s s' : MemoryStore)
    → Represents s q
    → Represents s' (drop 1 (q ++ (key, entry) ∷ []))
    → s.order ≡ oldest ∷ rest
    → contains (keys q) key ≡ false
    → (s'.order ≡ rest ++ key ∷ [])
      × (read t oldest s' ≡ none)
      × ((j : String) → j ≢ key → j ≢ oldest → read t j s' ≡ read t j s)
unfolding read
evicted t oldest key rest entry [] s s' r r' front new = absurd (ground (arith, r.order))
evicted t oldest key rest entry ((k, w) ∷ q) s s' r r' front new =
    let heads : k ∷ keys q ≡ oldest ∷ rest = sym r.order ∙ front in
    let k-oldest : k ≡ oldest = cc in
    let tails : keys q ≡ rest = cc in
    let apart : oldest ≢ key = ground (arith, string_comparable.equal_iff k key) in
    (
      r'.order ∙ (keys-append q (key, entry)) ∙ ap (λ l. l ++ key ∷ []) tails,
      ground (
        arith,
        r'.agree.found oldest,
        lookup-append_ne oldest key entry q apart,
        contains-keys oldest q,
        r.agree.distinct,
      ),
      λ j a b. ground (
        arith,
        r'.agree.found j,
        lookup-append_ne j key entry q a,
        r.agree.found j,
        lookup-cons_ne j k w q (λ e. b (e ∙ k-oldest)),
      ),
    )

-- Writing a new key to a full store evicts the key at the front of the order list and no other:
-- that key reads as absent, every key but it and the written one reads as before, and the written
-- key goes to the end of the order.
pub write_with_ttl-evicts :
    (now t ttl : ℤ) (oldest key : String) (rest : List String) (value : List ℕ) {s : MemoryStore}
    {q : Queue}
    → IsValid s q
    → pos 0 <ℤ s.opts.max_entries
    → s.opts.max_entries ≡ pos (length s.entries)
    → s.order ≡ oldest ∷ rest
    → lookup key s.entries ≡ none
    → let s' = write_with_ttl now key value ttl s in
      (s'.order ≡ rest ++ key ∷ [])
      × (read t oldest s' ≡ none)
      × ((j : String) → j ≢ key → j ≢ oldest → read t j s' ≡ read t j s)
unfolding push
write_with_ttl-evicts now t ttl oldest key rest value {s} {q} v bounded full front fresh =
    let entry : Entry = record { value = value; expires_at = now +ℤ ttl; created_at = now } in
    let s' : MemoryStore = write_with_ttl now key value ttl s in
    let r : Represents s' (push s.opts.max_entries key entry q) =
      write_with_ttl-Represents now key value ttl v.represents in
    let new : contains (keys q) key ≡ false =
      ground (arith, v.represents.agree.found key, contains-keys key q) in
    let n : excess s.opts.max_entries (length (q ++ (key, entry) ∷ [])) ≡ 1 =
      ground (arith, v.represents.agree.size, length-append q ((key, entry) ∷ [])) in
    let same : push s.opts.max_entries key entry q ≡ drop 1 (q ++ (key, entry) ∷ []) =
      rw (insert-absent key entry q new, n) refl in
    evicted t oldest key rest entry q s s' v.represents (subst (Represents s') same r) front new

at_expiry :
    (now : ℤ) (key : String) (s : MemoryStore) (e : Entry)
    → lookup key s.entries ≡ some e
    → e.expires_at ≡ now
    → (is_some (read now key s) ≡ true) × (exist now key s ≡ false)
unfolding read exist
at_expiry now key s e found same = ground arith

-- Exist implies Read, and the two disagree on a key exactly at the instant at which it expires.
pub read-exist :
    (now : ℤ) (key : String) (s : MemoryStore)
    → (exist now key s ≡ true → is_some (read now key s) ≡ true)
      × (((is_some (read now key s) ≡ true) × (exist now key s ≡ false))
          ↔ ((e : Entry) × (lookup key s.entries ≡ some e) × (e.expires_at ≡ now)))
unfolding read exist
read-exist now key s = elim (Option-cases (lookup key s.entries)) [
  | inl missing ↦ (ground arith, (λ h. absurd (ground arith), λ h. absurd (ground (arith, h.1))))
  | inr (e, found) ↦ (
    ground arith,
    (
      λ h. (e, found, eq_of_parts e.expires_at now (ground arith)),
      λ h. at_expiry now key s h.0 h.1 h.2,
    ),
  )
]
