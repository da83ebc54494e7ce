-- ===== src/Cache/GormCache/Outage.antt =====
-- What Get returns while the fetch function fails.
use cartridge.Prelude.{
  ◌≡◌, refl, ap, sym, subst, ◌∙◌, arith, Bool, true, false, Option, none, some, String, ◌==◌,
  string_comparable, if◌then◌else◌,
}
use cartridge.Prelude.Int.{ℤ}
use cartridge.GoMap.{lookup}
use cartridge.Cache.Generic.{Result, ok, err}
use cartridge.Cache.GormCache.{
  Gob, CacheRecord, GormCache, first, is_live, Waiting, waits, Refreshed, look_found, look, stale,
  fetch_and_store, after_check, refresh, after_look, get, has_bytes, hit_or,
}
use cartridge.Cache.GormCache.Gets.{look-row}

module _ {V : Type 0} (g : Gob V) where
  store-ok :
      (saving : Option String) (stored : ℤ) (key : String) (res : Result V String) (r : CacheRecord)
      (var : V) (c : GormCache)
      → (key == "") ≡ false
      → has_bytes r.value ≡ true
      → (v : V) × ((fetch_and_store g saving stored key res (some r) var c).result ≡ ok v)
  unfolding fetch_and_store stale
  store-ok saving stored key (ok v) r var c k h = (v, refl)
  store-ok saving stored key (err e) r var c k h = ((g.decode r.value var).0, ground arith)

  check-ok :
      (live : Bool) (c : GormCache) (d : V × Option String) (rest : V → Refreshed V) (var : V)
      → ((x : V) → (v : V) × ((rest x).result ≡ ok v))
      → (v : V) × ((if live then after_check g c d rest else rest var).result ≡ ok v)
  check-ok true c (x, none) rest var f = (x, refl)
  check-ok true c (x, some e) rest var f = f x
  check-ok false c d rest var f = f var

  refresh-row :
      (saving : Option String) (stored : ℤ) (key : String) (fetch : String → Result V String)
      (w : Waiting V) (c : GormCache) (r : CacheRecord)
      → lookup key c.rows ≡ some r
      → refresh g none saving stored key fetch w c ≡ (
          if is_live w.now r
          then after_check g c
              (g.decode r.value w.var)
              (λ var. fetch_and_store g saving stored key (fetch key) (some r) var c)
          else fetch_and_store g saving stored key (fetch key) (some r) w.var c)
  unfolding refresh first
  refresh-row saving stored key fetch w c r f = ground arith

  refresh-ok :
      (saving : Option String) (stored : ℤ) (key : String) (fetch : String → Result V String)
      (w : Waiting V) (c : GormCache) (r : CacheRecord)
      → (key == "") ≡ false
      → has_bytes r.value ≡ true
      → lookup key c.rows ≡ some r
      → (v : V) × ((refresh g none saving stored key fetch w c).result ≡ ok v)
  refresh-ok saving stored key fetch w c r k h f =
      subst (λ x. (v : V) × (x.result ≡ ok v)) (sym (refresh-row saving stored key fetch w c r f))
        (check-ok (is_live w.now r) c (g.decode r.value w.var)
          (λ var. fetch_and_store g saving stored key (fetch key) (some r) var c) w.var
          (λ x. store-ok saving stored key (fetch key) r x c k h))

  store-result :
      (saving : Option String) (stored : ℤ) (key : String) (res : Result V String) (var : V)
      (c : GormCache)
      → (fetch_and_store g saving stored key res none var c).result ≡ res
  unfolding fetch_and_store stale
  store-result saving stored key (ok v) var c = refl
  store-result saving stored key (err e) var c = refl

  look_absent :
      (now : ℤ) (key : String) (c : GormCache)
      → lookup key c.rows ≡ none
      → look g none now key c ≡ waits (record { now = now; seen = none; var = g.zero_value })
  unfolding look first
  look_absent now key c f = ground arith

  refresh_absent :
      (saving : Option String) (stored : ℤ) (key : String) (fetch : String → Result V String)
      (w : Waiting V) (c : GormCache)
      → lookup key c.rows ≡ none
      → refresh g none saving stored key fetch w c
        ≡ fetch_and_store g saving stored key (fetch key) w.seen w.var c
  unfolding refresh first
  refresh_absent saving stored key fetch w c f = ground arith

  look_found-ok :
      (now : ℤ) (r : CacheRecord) (c : GormCache) (rest : Waiting V → Refreshed V)
      → ((w : Waiting V) → (v : V) × ((rest w).result ≡ ok v))
      → (v : V) × ((after_look g c (look_found g now r) rest).result ≡ ok v)
  unfolding look_found
  look_found-ok now r c rest f = by_parts (is_live now r) (g.decode r.value g.zero_value)
    where
      by_parts :
          (live : Bool) (d : V × Option String)
          → (v : V) × ((after_look g c
                (if live
                  then hit_or g (record { now = now; seen = some r; var = d.0 }) d.1
                  else waits (record { now = now; seen = some r; var = g.zero_value }))
                rest).result
              ≡ ok v)
      by_parts true (x, none) = (x, refl)
      by_parts true (x, some e) = f _
      by_parts false d = f _

  -- While the queries succeed, Get of a key that is not empty returns a value and no error whatever
  -- the fetch function does if the table holds a record with bytes for the key, however old and also
  -- if the bytes cannot be decoded; if it holds none, Get returns what the fetch function does.
  pub get-outage :
      (saving : Option String) (now stored : ℤ) (key : String) (fetch : String → Result V String)
      (c : GormCache)
      → (key == "") ≡ false
      → ((r : CacheRecord)
          → lookup key c.rows ≡ some r
          → has_bytes r.value ≡ true
          → (v : V) × ((get g none none saving now stored key fetch c).result ≡ ok v))
        × (lookup key c.rows ≡ none
            → (get g none none saving now stored key fetch c).result ≡ fetch key)
  unfolding get
  get-outage saving now stored key fetch c k = (
    λ r f h.
        subst
          (λ x.
            (v : V) × ((after_look g c x (λ w. refresh g none saving stored key fetch w c)).result
              ≡ ok v))
          (sym (look-row g now key c r f))
          (look_found-ok now r c (λ w. refresh g none saving stored key fetch w c)
            (λ w. refresh-ok saving stored key fetch w c r k h f)),
    λ f.
        ap (λ x. (after_look g c x (λ w. refresh g none saving stored key fetch w c)).result)
          (look_absent now key c f)
        ∙ ap (λ x. x.result)
            (refresh_absent saving stored key fetch
              (record { now = now; seen = none; var = g.zero_value }) c f)
        ∙ store-result saving stored key (fetch key) g.zero_value c,
  )
