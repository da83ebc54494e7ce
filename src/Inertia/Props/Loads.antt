-- ===== src/Inertia/Props/Loads.antt =====
-- inertia/inertia.go: what the first load of a page and a partial reload bring, whatever the order in
-- which the props are visited.
use cartridge.Prelude.{
  ◌≡◌, refl, ◌∙◌, Bool, true, false, ◌&&◌, ◌||◌, Option, none, some, List, [], ◌∷◌, ◌++◌, String,
  string_comparable, ◌==◌, if◌then◌else◌, arith, contains, contains-append, Distinct,
  Distinct-concat, Option-cases,
}
use cartridge.GoMap.{lookup, Visits}
use cartridge.GoMap.Laws.{is_some, lookup-insert, contains-keys}
use cartridge.Inertia.Props.{
  Prop, plain, deferred, Resolved, Loaded, requested_keys, is_partial, group_or_default, keys_in,
  resolve_wanted, resolve_props, load_visited, resolve_props_for_initial_load, add_loaded,
  add_resolved,
}

module _ {ℓ} {V : Type ℓ} where
  -- The value of a prop, its callback called where it is deferred.
  abbrev pub full : Option (Prop V) → Option V
  full none = none
  full (some (plain v)) = some v
  full (some (deferred v group)) = some v

  abbrev pub at_first : Option (Prop V) → Option V
  at_first none = none
  at_first (some (plain v)) = some v
  at_first (some (deferred v group)) = none

  abbrev pub is_deferred : Option (Prop V) → Bool
  is_deferred none = false
  is_deferred (some (plain v)) = false
  is_deferred (some (deferred v group)) = true

  abbrev pub is_deferred_in : String → Option (Prop V) → Bool
  is_deferred_in g none = false
  is_deferred_in g (some (plain v)) = false
  is_deferred_in g (some (deferred v group)) = group_or_default group == g

  lookup-add_resolved :
      (key k : String) (p : Option (Prop V)) (out : Resolved V)
      → lookup k (add_resolved key p out).props
        ≡ (if key == k && is_some p then full p else lookup k out.props)
  lookup-add_resolved key k none out = ground arith
  lookup-add_resolved key k (some (plain v)) out = ground (arith, lookup-insert key k v out.props)
  lookup-add_resolved key k (some (deferred v group)) out =
      ground (arith, lookup-insert key k v out.props)

  contains-add_resolved :
      (key k : String) (p : Option (Prop V)) (out : Resolved V)
      → contains (add_resolved key p out).ran k ≡ (contains out.ran k || key == k && is_deferred p)
  contains-add_resolved key k none out = ground arith
  contains-add_resolved key k (some (plain v)) out = ground arith
  contains-add_resolved key k (some (deferred v group)) out =
      ground (arith, contains-append out.ran (key ∷ []) k)

  lookup-resolve_wanted :
      (wanted : String → Bool) (visit : List String) (props : List (String × Prop V))
      → (out : Resolved V) (k : String)
      → lookup k (resolve_wanted wanted visit props out).props ≡ (
          if contains visit k && wanted k && is_some (lookup k props)
          then full (lookup k props)
          else lookup k out.props)
  unfolding resolve_wanted
  lookup-resolve_wanted wanted [] props out k = refl
  lookup-resolve_wanted wanted (key ∷ visit) props out k = ground (
    arith,
    lookup-resolve_wanted wanted visit props (add_resolved key (lookup key props) out) k,
    lookup-resolve_wanted wanted visit props out k,
    lookup-add_resolved key k (lookup key props) out,
    string_comparable.equal_iff key k,
  )

  contains-resolve_wanted :
      (wanted : String → Bool) (visit : List String) (props : List (String × Prop V))
      → (out : Resolved V) (k : String)
      → contains (resolve_wanted wanted visit props out).ran k
        ≡ (contains out.ran k || contains visit k && wanted k && is_deferred (lookup k props))
  unfolding resolve_wanted
  contains-resolve_wanted wanted [] props out k = ground arith
  contains-resolve_wanted wanted (key ∷ visit) props out k = ground (
    arith,
    contains-resolve_wanted wanted visit props (add_resolved key (lookup key props) out) k,
    contains-resolve_wanted wanted visit props out k,
    contains-add_resolved key k (lookup key props) out,
    string_comparable.equal_iff key k,
  )

  Distinct-add_resolved :
      (key : String) (p : Option (Prop V)) (out : Resolved V)
      → Distinct out.ran
      → contains out.ran key ≡ false
      → Distinct (add_resolved key p out).ran
  Distinct-add_resolved key none out d h = d
  Distinct-add_resolved key (some (plain v)) out d h = d
  Distinct-add_resolved key (some (deferred v group)) out d h = Distinct-concat out.ran key d h

  Distinct-resolve_wanted :
      (wanted : String → Bool) (visit : List String) (props : List (String × Prop V))
      → (out : Resolved V) → Distinct visit
      → Distinct out.ran
      → ((k : String) → contains visit k ≡ true → contains out.ran k ≡ false)
      → Distinct (resolve_wanted wanted visit props out).ran
  unfolding resolve_wanted
  Distinct-resolve_wanted wanted [] props out dv d h = d
  Distinct-resolve_wanted wanted (key ∷ visit) props out dv d h =
      let p = lookup key props in
      Distinct-resolve_wanted wanted visit props
        (if wanted key then add_resolved key p out else out) dv.1
        (ground (
          arith,
          Distinct-add_resolved key p out d
              (h key (ground (arith, string_comparable.equal_iff key key))),
        ))
        (λ k c.
          ground (
            arith,
            contains-add_resolved key k p out,
            h k,
            dv.0,
            string_comparable.equal_iff key k,
          ))

  lookup-add_loaded :
      (key k : String) (p : Option (Prop V)) (out : Loaded V)
      → lookup k (add_loaded key p out).props
        ≡ (if key == k && is_some (at_first p) then at_first p else lookup k out.props)
  lookup-add_loaded key k none out = ground arith
  lookup-add_loaded key k (some (plain v)) out = ground (arith, lookup-insert key k v out.props)
  lookup-add_loaded key k (some (deferred v group)) out = ground arith

  keys_in-add_loaded :
      (key k g : String) (p : Option (Prop V)) (out : Loaded V)
      → contains (keys_in g (add_loaded key p out).deferred_keys) k
        ≡ (contains (keys_in g out.deferred_keys) k || key == k && is_deferred_in g p)
  keys_in-add_loaded key k g none out = ground arith
  keys_in-add_loaded key k g (some (plain v)) out = ground arith
  keys_in-add_loaded key k g (some (deferred v group)) out =
      let own = group_or_default group in
      let ks = keys_in own out.deferred_keys in
      ground (
        arith,
        lookup-insert own g (ks ++ key ∷ []) out.deferred_keys,
        contains-append ks (key ∷ []) k,
        string_comparable.equal_iff own g,
      )

  lookup-load_visited :
      (visit : List String) (props : List (String × Prop V)) (out : Loaded V) (k : String)
      → lookup k (load_visited visit props out).props ≡ (
          if contains visit k && is_some (at_first (lookup k props))
          then at_first (lookup k props)
          else lookup k out.props)
  unfolding load_visited
  lookup-load_visited [] props out k = refl
  lookup-load_visited (key ∷ visit) props out k = ground (
    arith,
    lookup-load_visited visit props (add_loaded key (lookup key props) out) k,
    lookup-add_loaded key k (lookup key props) out,
    string_comparable.equal_iff key k,
  )

  keys_in-load_visited :
      (visit : List String) (props : List (String × Prop V)) (out : Loaded V) (k g : String)
      → contains (keys_in g (load_visited visit props out).deferred_keys) k ≡ (
          contains (keys_in g out.deferred_keys) k
          || contains visit k && is_deferred_in g (lookup k props))
  unfolding load_visited
  keys_in-load_visited [] props out k g = ground arith
  keys_in-load_visited (key ∷ visit) props out k g = ground (
    arith,
    keys_in-load_visited visit props (add_loaded key (lookup key props) out) k g,
    keys_in-add_loaded key k g (lookup key props) out,
    string_comparable.equal_iff key k,
  )

  visited :
      {visit : List String} {props : List (String × Prop V)} (k : String)
      → Visits visit props
      → contains visit k ≡ is_some (lookup k props)
  visited {visit} {props} k v = v.same k ∙ contains-keys k props

  -- The first load of a page brings the value of each plain prop and no other prop, and lists each
  -- deferred prop under its own group, "default" where the group is empty, and nowhere else, in
  -- whatever order `range` visits the props.
  pub resolve_props_for_initial_load_lem :
      (visit : List String) (props : List (String × Prop V)) (k group : String)
      → Visits visit props
      → (lookup k (resolve_props_for_initial_load visit props).props ≡ at_first (lookup k props))
        × (contains (keys_in group (resolve_props_for_initial_load visit props).deferred_keys) k
            ≡ is_deferred_in group (lookup k props))
  unfolding resolve_props_for_initial_load lookup
  resolve_props_for_initial_load_lem visit props k group v =
      let start : Loaded V = record { props = []; deferred_keys = [] } in
      (
        ground (
          arith,
          lookup-load_visited visit props start k,
          visited k v,
          Option-cases (lookup k props),
        ),
        ground (
          arith,
          keys_in-load_visited visit props start k group,
          visited k v,
          Option-cases (lookup k props),
        ),
      )

  -- A partial reload of the page's own component, or of no named one, brings the values of the props
  -- that the request names and no other prop, and calls the callbacks of the deferred ones among
  -- them, each once, and no other callback, in whatever order `range` visits the props.
  pub resolve_props_partial :
      (visit : List String) (props : List (String × Prop V))
      → (partial_data partial_component name k : String) → Visits visit props
      → is_partial partial_data partial_component name ≡ true
      → let reload = resolve_props visit props partial_data partial_component name in
        let asked = contains (requested_keys partial_data) k in
        (lookup k reload.props ≡ (if asked then full (lookup k props) else none))
        × (contains reload.ran k ≡ (asked && is_deferred (lookup k props)))
        × Distinct reload.ran
  unfolding resolve_props lookup
  resolve_props_partial visit props partial_data partial_component name k v partial =
      let wanted = contains (requested_keys partial_data) in
      let start : Resolved V = record { props = []; ran = [] } in
      rw (partial, if◌then◌else◌)
        (
          ground (
            arith,
            lookup-resolve_wanted wanted visit props start k,
            visited k v,
            Option-cases (lookup k props),
          ),
          ground (
            arith,
            contains-resolve_wanted wanted visit props start k,
            visited k v,
            Option-cases (lookup k props),
          ),
          Distinct-resolve_wanted wanted visit props start v.distinct tt (λ k c. refl),
        )
