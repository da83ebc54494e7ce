-- ===== src/Cache/MemoryStore/Represents.antt =====
-- The relation between a memory store and its queue, and the lemmas on the order list.
use cartridge.Prelude.{
  ℕ, zero, suc, ◌-◌, ◌≡◌, refl, String, false, if◌then◌else◌, none, some, List, [], ◌∷◌, ◌++◌,
  length, drop, contains, Distinct, arith, string_comparable, subst, Bool-cases, inl, inr,
}
use cartridge.Prelude.Int.{ℤ, pos, negsuc, ◌+ℤ◌, leb_ℤ, ltb_ℤ}
use cartridge.GoMap.{lookup, insert, delete, keys}
use cartridge.GoMap.Laws.{
  lookup-insert, lookup-delete, contains-keys, Distinct-insert, Distinct-delete, length-insert,
  length-delete, delete_absent,
}
use cartridge.Cache.MemoryStore.{
  Entry, MemoryStore, evict, enforce_limit_locked, write_with_ttl, remove_from_order,
}
use cartridge.Cache.MemoryStore.Queue.{Queue, excess, push}

-- The map holds the queue's entries.
pub record Matches (entries : List (String × Entry)) (q : Queue) : Type 0 where
  pub distinct_keys : Distinct (keys entries)
  pub distinct : Distinct (keys q)
  pub found : (k : String) → lookup k entries ≡ lookup k q
  pub size : length entries ≡ length q

-- The order list names the queue's keys, front first.
pub record Represents (s : MemoryStore) (q : Queue) : Type 0 where
  pub agree : Matches s.entries q
  pub order : s.order ≡ keys q

-- Deleting the front key of a queue of distinct keys drops the front entry.
pub delete-front :
    (k : String) (v : Entry) (q : Queue) → Distinct (keys ((k, v) ∷ q)) → delete k ((k, v) ∷ q) ≡ q
unfolding delete
delete-front k v q d = ground (arith, string_comparable.equal_iff k k, delete_absent k q)

pub remove_from_order-keys :
    (k : String) (q : Queue) → Distinct (keys q) → remove_from_order k (keys q) ≡ keys (delete k q)
unfolding remove_from_order delete
remove_from_order-keys k [] d = refl
remove_from_order-keys k ((j, v) ∷ q) d =
    ground (arith, string_comparable.equal_iff j k, remove_from_order-keys k q, delete_absent k q)

pub keys-insert :
    (k : String) (v : Entry) (q : Queue)
    → keys (insert k v q) ≡ (if contains (keys q) k then keys q else keys q ++ k ∷ [])
unfolding insert
keys-insert k v [] = refl
keys-insert k v ((j, w) ∷ q) = ground (arith, string_comparable.equal_iff j k, keys-insert k v q)

pub contains-Matches :
    {entries : List (String × Entry)} {q : Queue}
    → Matches entries q
    → (k : String) → contains (keys entries) k ≡ contains (keys q) k
contains-Matches {entries} {q} m k = rw (contains-keys k entries, m.found k, contains-keys k q) refl

pub Matches-delete :
    (k : String) {entries : List (String × Entry)} {q : Queue}
    → Matches entries q
    → Matches (delete k entries) (delete k q)
Matches-delete k {entries} {q} m = record {
  distinct_keys = Distinct-delete k entries m.distinct_keys;
  distinct = Distinct-delete k q m.distinct;
  found = λ j. rw (lookup-delete k j entries, lookup-delete k j q, m.found j) refl;
  size = ground (
    arith,
    m.size,
    length-delete k entries m.distinct_keys,
    length-delete k q m.distinct,
    contains-Matches m k,
  );
}

pub Matches-insert :
    (k : String) (v : Entry) {entries : List (String × Entry)} {q : Queue}
    → Matches entries q
    → Matches (insert k v entries) (insert k v q)
Matches-insert k v {entries} {q} m = record {
  distinct_keys = Distinct-insert k v entries m.distinct_keys;
  distinct = Distinct-insert k v q m.distinct;
  found = λ j. rw (lookup-insert k j v entries, lookup-insert k j v q, m.found j) refl;
  size =
      ground (arith, m.size, length-insert k v entries, length-insert k v q, contains-Matches m k);
}

drop-nil {ℓ} : {A : Type ℓ} (n : ℕ) → drop {A = A} n [] ≡ []
drop-nil zero = refl
drop-nil (suc n) = refl

-- The loop drops from the front what exceeds the bound.
evict-drop :
    (max : ℕ) (entries : List (String × Entry)) (q : Queue)
    → Matches entries q
    → Matches (evict (pos max) entries (keys q)).0 (drop (length q - max) q)
      × ((evict (pos max) entries (keys q)).1 ≡ keys (drop (length q - max) q))
unfolding evict
evict-drop max entries [] m = rw (drop-nil {A = String × Entry} (0 - max)) (m, refl)
evict-drop max entries ((k, v) ∷ q) m = elim (Bool-cases (ltb_ℤ (pos max) (pos (length entries)))) [
  | inl full ↦
      let n : suc (length q) - max ≡ suc (length q - max) = ground (arith, m.size) in
      let rest : Matches (delete k entries) q =
        subst (Matches (delete k entries)) (delete-front k v q m.distinct) (Matches-delete k m) in
      rw (full, n) (evict-drop max (delete k entries) q rest)
  | inr fits ↦ let n : suc (length q) - max ≡ 0 = ground (arith, m.size) in rw (fits, n) (m, refl)
]

evict-excess :
    (max : ℤ) (entries : List (String × Entry)) (q : Queue)
    → leb_ℤ max (pos 0) ≡ false
    → Matches entries q
    → Matches (evict max entries (keys q)).0 (drop (excess max (length q)) q)
      × ((evict max entries (keys q)).1 ≡ keys (drop (excess max (length q)) q))
evict-excess (pos n) entries q h m = rw h (evict-drop n entries q m)
evict-excess (negsuc n) entries q h m = absurd (ground arith)

pub enforce_limit_locked-Represents :
    {s : MemoryStore} {q : Queue}
    → Represents s q
    → Represents (enforce_limit_locked s) (drop (excess s.opts.max_entries (length q)) q)
unfolding enforce_limit_locked
enforce_limit_locked-Represents {s} {q} r = elim (Bool-cases (leb_ℤ s.opts.max_entries (pos 0))) [
  | inl open_ended ↦ rw open_ended r
  | inr bounded ↦
      let (agree, order) = evict-excess s.opts.max_entries s.entries q bounded r.agree in
      rw (bounded, r.order) (record { agree = rw bounded at agree; order = rw bounded at order })
]

-- The store before the limit is enforced, in write_with_ttl.
appended :
    (k : String) {entries : List (String × Entry)} {q : Queue}
    → Matches entries q
    → (v : Entry) {order : List String} → order ≡ keys q
    → (elim (lookup k entries) [ none ↦ order ++ k ∷ [] | some _ ↦ order ]) ≡ keys (insert k v q)
appended k {entries} {q} m v e = ground (arith, keys-insert k v q, m.found k, contains-keys k q)

pub write_with_ttl-Represents :
    (now : ℤ) (key : String) (value : List ℕ) (ttl : ℤ) {s : MemoryStore} {q : Queue}
    → Represents s q
    → Represents (write_with_ttl now key value ttl s) (
        push s.opts.max_entries key
          (record { value = value; expires_at = now +ℤ ttl; created_at = now })
          q)
unfolding write_with_ttl push
write_with_ttl-Represents now key value ttl {s} {q} r =
    let entry : Entry = record { value = value; expires_at = now +ℤ ttl; created_at = now } in
    let order' : List String = elim (lookup key s.entries) [
      | none ↦ s.order ++ key ∷ []
      | some _ ↦ s.order
    ] in
    enforce_limit_locked-Represents
      {s = record s { entries = insert key entry s.entries; order = order' }}
      (record {
        agree = Matches-insert key entry r.agree;
        order = appended key r.agree entry r.order;
      })
