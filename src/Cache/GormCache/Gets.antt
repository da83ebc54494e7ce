-- ===== src/Cache/GormCache/Gets.antt =====
-- What Get returns: hits, one fetch for many goroutines, errors, and times to live below a second.
use cartridge.Prelude.{
  ℕ, ◌≡◌, ◌<◌, refl, ap, ◌∙◌, arith, true, false, Option, none, some, List, [], ◌∷◌, String,
  string_comparable, All,
}
use cartridge.Prelude.Int.{ℤ, pos, ◌+ℤ◌, ◌<ℤ◌, ◌≤ℤ◌, +ℤ_parts}
use cartridge.GoMap.{lookup}
use cartridge.GoMap.Laws.{lookup-insert}
use cartridge.Cache.Generic.{Result, ok, err}
use cartridge.Cache.GormCache.{
  Gob, CacheRecord, GormCache, whole_seconds, first, is_live, Waiting, hit, waits, Refreshed,
  look_found, look, set_internal, fetch_and_store, refresh, after_look, get, set,
}

module _ {V : Type 0} (g : Gob V) where
  -- The record that a successful write of v at `at` leaves.
  abbrev written : ℤ → ℤ → List ℕ → CacheRecord
  written at ttl b = record { value = b; last_updated = at; ttl_seconds = whole_seconds ttl }

  lookup-set :
      (at : ℤ) (key : String) (v : V) (b : List ℕ) (c : GormCache)
      → g.encode v ≡ some b
      → lookup key (set g none at key v c).rows ≡ some (written at c.ttl b)
  unfolding set set_internal
  lookup-set at key v b c e = ground (
    arith,
    lookup-insert key key (written at c.ttl b) c.rows,
    string_comparable.equal_iff key key,
  )

  look_hit :
      (now : ℤ) (r : CacheRecord) (v : V)
      → is_live now r ≡ true
      → g.decode r.value g.zero_value ≡ (v, none)
      → look_found g now r ≡ hit v
  unfolding look_found
  look_hit now r v l d = ground arith

  refresh_hit :
      (saving : Option String) (stored : ℤ) (key : String) (fetch : String → Result V String)
      (w : Waiting V) (c : GormCache) (r : CacheRecord) (v : V)
      → lookup key c.rows ≡ some r
      → is_live w.now r ≡ true
      → g.decode r.value w.var ≡ (v, none)
      → refresh g none saving stored key fetch w c
        ≡ record { cache = c; result = ok v; fetched = false }
  unfolding refresh first
  refresh_hit saving stored key fetch w c r v f l d = ground arith

  look_found-row :
      (now : ℤ) (key : String) (v : V) (c : GormCache) (r : CacheRecord)
      → lookup key c.rows ≡ some r
      → is_live now r ≡ true
      → g.decode r.value g.zero_value ≡ (v, none)
      → look g none now key c ≡ hit v
  unfolding look first
  look_found-row now key v c r f l d = rw (look, f) (look_hit now r v l d)

  live_at :
      (at now ttl : ℤ) (b : List ℕ)
      → now <ℤ at +ℤ whole_seconds ttl
      → is_live now (written at ttl b) ≡ true
  live_at at now ttl b l = ground arith

  -- A value that Set stored without an error, and that gob encodes and decodes from its bytes into a
  -- zero variable as it was, is what Get then returns without a fetch and without a change, from any
  -- time before the end of the time to live in whole seconds, when the query of Get succeeds; the
  -- time to live is the cache's.
  pub get-after_set :
      (at : ℤ) (key : String) (v : V) (b : List ℕ) (c : GormCache) (checking saving : Option String)
      (now stored : ℤ) (fetch : String → Result V String)
      → g.encode v ≡ some b
      → g.decode b g.zero_value ≡ (v, none)
      → now <ℤ at +ℤ whole_seconds c.ttl
      → get g none checking saving now stored key fetch (set g none at key v c)
        ≡ record { cache = set g none at key v c; result = ok v; fetched = false }
  unfolding get look first
  get-after_set at key v b c checking saving now stored fetch e d l =
      let row = lookup-set at key v b c e in
      let seen : look g none now key (set g none at key v c) ≡ hit v =
        look_found-row now key v (set g none at key v c) (written at c.ttl b) row
          (live_at at now c.ttl b l) d in
      ap
        (λ x.
          after_look g (set g none at key v c) x
            (λ w. refresh g checking saving stored key fetch w (set g none at key v c)))
        seen

  -- The goroutines that wait for the lock while one stores a value, each with what it saw.
  abbrev pub queue :
      String → (String → Result V String) → List (Waiting V) → GormCache → List (Refreshed V)
  queue key fetch [] c = []
  queue key fetch (w ∷ ws) c =
      let r = refresh g none none w.now key fetch w c in r ∷ queue key fetch ws r.cache

  abbrev Ready : ℤ → ℤ → Waiting V → Type 0
  Ready at ttl w = (w.now <ℤ at +ℤ whole_seconds ttl) × (w.var ≡ g.zero_value)

  queue-hits :
      (at ttl : ℤ) (key : String) (v : V) (b : List ℕ) (fetch : String → Result V String)
      (ws : List (Waiting V)) (c : GormCache)
      → g.decode b g.zero_value ≡ (v, none)
      → lookup key c.rows ≡ some (written at ttl b)
      → All (Ready at ttl) ws
      → All (λ r. r ≡ record { cache = c; result = ok v; fetched = false }) (queue key fetch ws c)
  queue-hits at ttl key v b fetch [] c d f a = tt
  queue-hits at ttl key v b fetch (w ∷ ws) c d f (l, a) =
      let hit =
        refresh_hit none w.now key fetch w c (written at ttl b) v f (live_at at w.now ttl b l.0)
          (ap (λ x. g.decode b x) l.1 ∙ d) in
      (hit, rw (ap (λ r. r.cache) hit) (queue-hits at ttl key v b fetch ws c d f a))

  -- A key has no row, an expired one neither, and the goroutine that has the lock fetches a value,
  -- encodes it and saves it at `at` without an error. Then every goroutine of a list that waits for
  -- the lock returns that value without a fetch and leaves the cache as it is, however long it waited:
  -- the reading of the clock from before the wait counts. This is for goroutines that read the clock
  -- before the end of the value's time to live, whose variable is the zero value and whose queries
  -- succeed, and for a value that gob decodes from its bytes into a zero variable as it was.
  pub refresh-one_fetch :
      (at : ℤ) (key : String) (v : V) (b : List ℕ) (fetch : String → Result V String)
      (w : Waiting V) (ws : List (Waiting V)) (c : GormCache)
      → lookup key c.rows ≡ none
      → fetch key ≡ ok v
      → g.encode v ≡ some b
      → g.decode b g.zero_value ≡ (v, none)
      → All (Ready at c.ttl) ws
      → (refresh g none none at key fetch w c
          ≡ record { cache = set g none at key v c; result = ok v; fetched = true })
        × All
            (λ r. r ≡ record { cache = set g none at key v c; result = ok v; fetched = false })
            (queue key fetch ws (set g none at key v c))
  unfolding refresh first fetch_and_store set
  refresh-one_fetch at key v b fetch w ws c m f e d a = (
    ground (arith, m, f),
    queue-hits at c.ttl key v b fetch ws (set g none at key v c) d (lookup-set at key v b c e) a,
  )

  store-fetched :
      (saving : Option String) (stored : ℤ) (key : String) (r : Result V String)
      (seen : Option CacheRecord) (var : V) (c : GormCache)
      → (fetch_and_store g saving stored key r seen var c).fetched ≡ true
  unfolding fetch_and_store
  store-fetched saving stored key (ok v) seen var c = refl
  store-fetched saving stored key (err e) seen var c = refl

  look_dead :
      (now : ℤ) (r : CacheRecord)
      → is_live now r ≡ false
      → look_found g now r ≡ waits (record { now = now; seen = some r; var = g.zero_value })
  unfolding look_found
  look_dead now r d = ground arith

  refresh_dead :
      (saving : Option String) (stored : ℤ) (key : String) (fetch : String → Result V String)
      (w : Waiting V) (c : GormCache) (r : CacheRecord)
      → lookup key c.rows ≡ some r
      → is_live w.now r ≡ false
      → refresh g none saving stored key fetch w c
        ≡ fetch_and_store g saving stored key (fetch key) (some r) w.var c
  unfolding refresh first
  refresh_dead saving stored key fetch w c r f d = ground arith

  whole_seconds_short : (n : ℕ) → n < 1_000_000_000 → whole_seconds (pos n) ≡ pos 0
  unfolding whole_seconds
  whole_seconds_short n h = ap pos (omega arith)

  dead_at :
      (at now : ℤ) (b : List ℕ) (lasting : ℤ)
      → lasting ≡ pos 0
      → at ≤ℤ now
      → is_live now (record { value = b; last_updated = at; ttl_seconds = lasting }) ≡ false
  dead_at at now b lasting z l = ground (arith, z, +ℤ_parts at lasting)

  pub look-row :
      (now : ℤ) (key : String) (c : GormCache) (r : CacheRecord)
      → lookup key c.rows ≡ some r
      → look g none now key c ≡ look_found g now r
  unfolding look first
  look-row now key c r f = ground arith

  get_dead :
      (saving : Option String) (now stored : ℤ) (key : String) (fetch : String → Result V String)
      (c : GormCache) (r : CacheRecord)
      → lookup key c.rows ≡ some r
      → is_live now r ≡ false
      → (get g none none saving now stored key fetch c).fetched ≡ true
  unfolding get
  get_dead saving now stored key fetch c r f d =
      ap (λ x. (after_look g c x (λ w. refresh g none saving stored key fetch w c)).fetched)
        (look-row now key c r f ∙ look_dead now r d)
      ∙ ap (λ x. x.fetched)
          (refresh_dead saving stored key fetch
            (record { now = now; seen = some r; var = g.zero_value }) c r f d)
      ∙ store-fetched saving stored key (fetch key) (some r) g.zero_value c

  -- With a time to live below a second nothing is ever served: a Get that comes at the time of a
  -- successful Set or later calls the fetch function.
  pub get-short_ttl :
      (n : ℕ) (at : ℤ) (key : String) (v : V) (b : List ℕ) (c : GormCache) (saving : Option String)
      (now stored : ℤ) (fetch : String → Result V String)
      → c.ttl ≡ pos n
      → n < 1_000_000_000
      → g.encode v ≡ some b
      → at ≤ℤ now
      → (get g none none saving now stored key fetch (set g none at key v c)).fetched ≡ true
  unfolding get look first
  get-short_ttl n at key v b c saving now stored fetch t h e l =
      let f = lookup-set at key v b c e in
      let d : is_live now (written at c.ttl b) ≡ false =
        dead_at at now b (whole_seconds c.ttl) (ap whole_seconds t ∙ whole_seconds_short n h) l in
      get_dead saving now stored key fetch (set g none at key v c) (written at c.ttl b) f d
