-- ===== src/Inertia/Page/Contents.antt =====
-- inertia/inertia.go: what the page object of an answer holds, and what of it is sent.
use cartridge.Prelude.{
  ◌≡◌, refl, ◌∙◌, not, String, Bool, true, Option, none, some, List, ◌==◌, if◌then◌else◌, arith,
  string_comparable, ap, contains, ◌∷◌, Option-cases, Bool-cases, inl, inr, ◌&&◌, [],
}
use cartridge.Prelude.Int.{ℤ}
use cartridge.GoMap.{lookup, insert, Visits}
use cartridge.GoMap.Laws.{is_some}
use cartridge.Flash.{FlashCodec, FlashMessage, Cookie, get_flash}
use cartridge.Inertia.Manifest.{ManifestEntry, Assets}
use cartridge.Inertia.Props.{
  Prop, plain, is_partial, keys_in, requested_keys, resolve_props_for_initial_load,
}
use cartridge.Inertia.Props.Loads.{
  full, at_first, is_deferred_in, resolve_props_for_initial_load_lem, resolve_props_partial,
}
use cartridge.Inertia.Page.{
  PageRequest, Page, Body, sent_json, sent_html, html_page, inject_flash, render, load_page,
  reload_page, or_failed, unless_empty,
}

-- What is sent of the text of a page.
abbrev pub body_of : PageRequest → Assets → Option String → Body
body_of r a text =
    if not (r.x_inertia == "")
    then or_failed sent_json text
    else or_failed (λ page_json. sent_html (html_page a page_json)) text

abbrev pub is_reload : PageRequest → String → Bool
is_reload r name = not (r.x_inertia == "") && is_partial r.partial_data r.partial_component name

-- A page lists its deferred props by group; no list is an empty one.
abbrev pub groups_of {ℓ} : {V : Type ℓ} → Page V → List (String × List String)
groups_of p = elim p.deferred_props [ none ↦ [] | some gs ↦ gs ]

module _ {ℓ} {V : Type ℓ} where
  abbrev pub page_for : List String → PageRequest → String → List (String × Prop V) → Page V
  page_for visit r name props =
      if is_reload r name then reload_page visit r name props else load_page visit r name props

  -- The value of a prop in a page.
  abbrev pub shown : PageRequest → String → String → Option (Prop V) → Option V
  shown r name k p =
      if is_reload r name
      then if contains (requested_keys r.partial_data) k then full p else none
      else at_first p

  -- What a page shows of a message: nothing in a partial reload that does not name it.
  abbrev pub message_in : PageRequest → String → V → Option V
  message_in r name v =
      if is_reload r name && not (contains (requested_keys r.partial_data) "flash")
      then none
      else some v

  shown_message :
      (r : PageRequest) (name : String) (v : V)
      → shown r name "flash" (some (plain v)) ≡ message_in r name v
  shown_message r name v = ground arith

module _ {ℓ} {V : Type ℓ} (codec : FlashCodec) (flash_value : FlashMessage → V)
    (unmarshal : String → Option (List (String × ManifestEntry))) (marshal : Page V → Option String)
    (read_file : String → Option String) (now : ℤ) where
  -- What Render does to the caller's map and to the cookies is the injection, and the page that it
  -- sends is made of the injected map, on every branch.
  pub parts-render :
      (visit : List String) (a : Assets) (r : PageRequest) (name : String)
      → (props : List (String × Prop V))
      → let out = render codec flash_value unmarshal marshal read_file now visit a r name props in
        let injected = inject_flash codec flash_value now r props in
        (out.props ≡ injected.0)
        × (out.cookie ≡ injected.1)
        × (out.page ≡ page_for visit r name injected.0)
        × (out.body ≡ body_of r out.assets (marshal out.page))
  unfolding render
  parts-render visit a r name props = elim (Bool-cases (r.x_inertia == "")) [
    | inl first ↦ rw first (refl, refl, refl, refl)
    | inr again ↦ elim (Bool-cases (is_partial r.partial_data r.partial_component name)) [
      | inl p ↦ rw (again, p) (refl, refl, refl, refl)
      | inr p ↦ rw (again, p) (refl, refl, refl, refl)
    ]
  ]

  pub lookup-load_page :
      (visit : List String) (r : PageRequest) (name : String) (props : List (String × Prop V))
      → (k g : String) → Visits visit props
      → (lookup k (load_page visit r name props).props ≡ at_first (lookup k props))
        × (contains (keys_in g (groups_of (load_page visit r name props))) k
            ≡ is_deferred_in g (lookup k props))
  unfolding load_page
  lookup-load_page visit r name props k g v =
      let (at, groups) = resolve_props_for_initial_load_lem visit props k g v in
      (
        at,
        ap (λ gs. contains (keys_in g gs) k)
              (list_of (resolve_props_for_initial_load visit props).deferred_keys)
            ∙ groups,
      )
    where
      list_of :
          (gs : List (String × List String))
          → elim (unless_empty gs) [ none ↦ [] | some hs ↦ hs ] ≡ gs
      list_of [] = refl
      list_of (x ∷ gs) = refl

  lookup-page_for :
      (visit : List String) (r : PageRequest) (name : String) (props : List (String × Prop V))
      → (k : String) → Visits visit props
      → lookup k (page_for visit r name props).props ≡ shown r name k (lookup k props)
  unfolding reload_page
  lookup-page_for visit r name props k v = elim (Bool-cases (is_reload r name)) [
    | inl b ↦
        rw b
          (resolve_props_partial visit props r.partial_data r.partial_component name k v
            (ground (arith, b))).0
    | inr b ↦ rw b (lookup-load_page visit r name props k "" v).0
  ]

  pub inject_flash_present :
      (r : PageRequest) (props : List (String × Prop V))
      → is_some (lookup "flash" props) ≡ true
      → inject_flash codec flash_value now r props ≡ (props, none)
  unfolding inject_flash
  inject_flash_present r props h = ground (arith, Option-cases (lookup "flash" props))

  pub inject_flash_absent :
      (r : PageRequest) (props : List (String × Prop V))
      → lookup "flash" props ≡ none
      → inject_flash codec flash_value now r props ≡ (
        insert "flash" (plain (flash_value (get_flash codec now r.cookies).0)) props,
        (get_flash codec now r.cookies).1,
      )
  unfolding inject_flash
  inject_flash_absent r props h = rw (h, inject_flash) refl

  -- What the answer to a request shows of a message that its props have.
  pub message-render :
      (visit : List String) (a : Assets) (r : PageRequest) (name : String)
      → (props injected : List (String × Prop V)) (cookie : Option Cookie) (v : V)
      → inject_flash codec flash_value now r props ≡ (injected, cookie)
      → lookup "flash" injected ≡ some (plain v)
      → Visits visit injected
      → lookup "flash"
          (render codec flash_value unmarshal marshal read_file now visit a r name props).page.props
        ≡ message_in r name v
  message-render visit a r name props injected cookie v e f vs =
      ap (λ p. lookup "flash" p.props) (parts-render visit a r name props).2
      ∙ ap (λ x. lookup "flash" (page_for visit r name x.0).props) e
      ∙ lookup-page_for visit r name injected "flash" vs
      ∙ ap (shown r name "flash") f
      ∙ shown_message r name v
