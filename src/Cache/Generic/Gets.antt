-- ===== src/Cache/Generic/Gets.antt =====
-- When a cache calls the fetch function, and what a caller gets.
use cartridge.Prelude.{◌≡◌, ◌↔◌, ap, true, false, none, List, [], ◌∷◌, Comparable, arith, All}
use cartridge.Prelude.Int.{ℤ, ◌-ℤ◌, ◌<ℤ◌}
use cartridge.GoMap.{lookup}
use cartridge.GoMap.Laws.{lookup-insert}
use cartridge.Cache.Generic.{Result, ok, err, Cache, Refreshed, fast_path, refresh, get, set}

module _ {ℓ} {K V E : Type ℓ} ⦃e : Comparable K⦄ where
  -- A cache that holds an entry for the key never fails a Get, however old the entry is: a Get
  -- fails exactly if the key has no entry and the fetch fails, and then the cache is unchanged.
  pub get-err_iff :
      (now checked stored : ℤ) (key : K) (fetch : K → Result V E) (c : Cache K V) (problem : E)
      → let r = get now checked stored key fetch c in
        ((r.result ≡ err problem) ↔ ((lookup key c.entries ≡ none) × (fetch key ≡ err problem)))
        × (r.result ≡ err problem → r.cache ≡ c)
  unfolding get
  get-err_iff now checked stored key fetch c problem =
      ((λ h. ground arith, λ h. ground (arith, h.0, h.1)), λ h. ground arith)

  -- After a value was stored, every Get that checks the clock less than the time to live later
  -- returns it, leaves the cache as it is and does not call the fetch function.
  pub get-set :
      (at now checked stored : ℤ) (key : K) (v : V) (fetch : K → Result V E) (c : Cache K V)
      → now -ℤ at <ℤ c.ttl
      → get now checked stored key fetch (set at key v c)
        ≡ record { cache = set at key v c; result = ok v; fetched = false }
  unfolding get set
  get-set at now checked stored key v fetch c soon = ground (
    arith,
    lookup-insert key key (record { value = v; last_updated = at }) c.entries,
    e.equal_iff key key,
  )

  -- The goroutines that queued on the write lock, one after the other, by the times at which each
  -- checks the clock.
  unfoldable pub queued : List ℤ → K → (K → Result V E) → Cache K V → List (Refreshed K V E)
  queued [] key fetch c = []
  queued (checked ∷ ts) key fetch c =
      let r = refresh checked checked key fetch c in r ∷ queued ts key fetch r.cache

  refresh-hit :
      (at t : ℤ) (key : K) (v : V) (fetch : K → Result V E) (c : Cache K V)
      → t -ℤ at <ℤ c.ttl
      → refresh t t key fetch (set at key v c)
        ≡ record { cache = set at key v c; result = ok v; fetched = false }
  unfolding refresh set
  refresh-hit at t key v fetch c h = ground (
    arith,
    lookup-insert key key (record { value = v; last_updated = at }) c.entries,
    e.equal_iff key key,
  )

  queued-hits :
      (at : ℤ) (ts : List ℤ) (key : K) (v : V) (fetch : K → Result V E) (c : Cache K V)
      → All (λ t. t -ℤ at <ℤ c.ttl) ts
      → All
          (λ r. r ≡ record { cache = set at key v c; result = ok v; fetched = false })
          (queued ts key fetch (set at key v c))
  unfolding queued
  queued-hits at [] key v fetch c h = tt
  queued-hits at (t ∷ ts) key v fetch c h =
      let hit = refresh-hit at t key v fetch c h.0 in
      (hit, rw (ap (λ r. r.cache) hit) (queued-hits at ts key v fetch c h.1))

  -- When a Get misses and its fetch succeeds, it stores and returns the value, and all goroutines
  -- that missed at the same time and get the lock after it, each within the time to live, return
  -- that value without a fetch and leave the cache as it is.
  pub refresh-single_fetch :
      (checked at : ℤ) (ts : List ℤ) (key : K) (v : V) (fetch : K → Result V E) (c : Cache K V)
      → fast_path checked key c ≡ none
      → fetch key ≡ ok v
      → All (λ t. t -ℤ at <ℤ c.ttl) ts
      → (refresh checked at key fetch c
          ≡ record { cache = set at key v c; result = ok v; fetched = true })
        × All
            (λ r. r ≡ record { cache = set at key v c; result = ok v; fetched = false })
            (queued ts key fetch (set at key v c))
  unfolding refresh set
  refresh-single_fetch checked at ts key v fetch c miss got soon =
      (ground arith, queued-hits at ts key v fetch c soon)
