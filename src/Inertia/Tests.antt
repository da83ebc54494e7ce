-- ===== src/Inertia/Tests.antt =====
-- Pages at concrete inputs: a codec of flash messages, the props of a page in two orders, and a
-- manifest.
use Prim.Native.Char.{code}
use Prim.Native.String as Str
use cartridge.Prelude.{
  ◌≡◌, refl, String, Bool, true, false, Option, none, some, List, [], ◌∷◌, ◌==◌, nat_beq,
  if◌then◌else◌, arith, contains, Distinct, concat, string_comparable, Bool-cases, inl, inr, ap,
}
use cartridge.Prelude.Int.{pos}
use cartridge.GoMap.{lookup, Visits, insert}
use cartridge.Flash.{
  FlashCodec, FlashMessage, Cookie, set_flash, with_cookie, expired_cookie, get_flash,
}
use cartridge.Inertia.Manifest.{ManifestEntry, Assets, load_manifest, load_manifest_twice}
use cartridge.Inertia.Props.{
  Prop, plain, deferred, resolve_props, resolve_props_for_initial_load, keys_in, requested_keys,
}
use cartridge.Inertia.Props.Loads.{
  at_first, resolve_props_for_initial_load_lem, resolve_props_partial,
}
use cartridge.Inertia.Page.{
  PageRequest, Page, Rendered, render, inject_flash, or_failed, sent_html, sent_json, html_page,
}
use cartridge.Inertia.Page.Contents.{body_of, groups_of}
use cartridge.Inertia.Page.Answers.{render-as_html, render-set_flash, render_twice}

-- Each character of the type behind a "1", a "0", and the message.
written : String → String → String
written Str.[] message = Str.◌∷◌ "0" message
written (Str.◌∷◌ c s) message = Str.◌∷◌ "1" (Str.◌∷◌ c (written s message))

read : String → Option FlashMessage
read Str.[] = none
read (Str.◌∷◌ d Str.[]) =
    if nat_beq (code d) b'0' then some (record { type_name = ""; message = "" }) else none
read (Str.◌∷◌ d (Str.◌∷◌ c s)) =
    let rest = read s in
    if nat_beq (code d) b'0'
    then some (record { type_name = ""; message = Str.◌∷◌ c s })
    else elim rest [
      | none ↦ none
      | some m ↦ some (record { type_name = Str.◌∷◌ c m.type_name; message = m.message })
    ]

read-written :
    (s message : String)
    → read (written s message) ≡ some (record { type_name = s; message = message })
unfolding read written
read-written Str.[] Str.[] = refl
read-written Str.[] (Str.◌∷◌ c s) = refl
read-written (Str.◌∷◌ c s) message = ground (arith, read-written s message)

abbrev is_full : String → Bool
is_full Str.[] = false
is_full (Str.◌∷◌ c s) = true

not_blank : (s : String) → is_full s ≡ true → (s == "") ≡ false
not_blank s h = elim (Bool-cases (s == "")) [
  | inl blank ↦ absurd (ground (arith, ap is_full ((string_comparable.equal_iff s "").0 blank)))
  | inr full ↦ full
]

written-full : (s message : String) → (written s message == "") ≡ false
unfolding written
written-full Str.[] message = not_blank _ refl
written-full (Str.◌∷◌ c s) message = not_blank _ refl

read_back :
    (m : FlashMessage) (s : String)
    → some (written m.type_name m.message) ≡ some s
    → read s ≡ some m
read_back m s h = ground (arith, read-written m.type_name m.message)

full_text :
    (m : FlashMessage) (s : String)
    → some (written m.type_name m.message) ≡ some s
    → (s == "") ≡ false
full_text m s h = ground (arith, written-full m.type_name m.message)

abbrev codec : FlashCodec
codec = record {
  marshal = λ m. some (written m.type_name m.message);
  unmarshal = read;
  encode = λ s. s;
  decode = λ s. some s;
  unmarshal_marshal = read_back;
  marshal_full = full_text;
  decode_encode = λ s. refl;
  encode_full = λ s h. h;
}

abbrev props : List (String × Prop String)
props = ("title", plain "Home") ∷ ("stats", deferred "42" "") ∷ ("log", deferred "ok" "slow") ∷ []

props-Visits : Visits ("log" ∷ "title" ∷ "stats" ∷ []) props
props-Visits = record { distinct = (refl, (refl, (refl, tt))); same = λ k. ground arith }

resolve_props_for_initial_load_lem_example :
    (lookup "stats" (resolve_props_for_initial_load ("log" ∷ "title" ∷ "stats" ∷ []) props).props
      ≡ none)
    × (contains
          (keys_in "default"
            (resolve_props_for_initial_load ("log" ∷ "title" ∷ "stats" ∷ []) props).deferred_keys)
          "stats"
        ≡ true)
unfolding lookup
resolve_props_for_initial_load_lem_example =
    resolve_props_for_initial_load_lem ("log" ∷ "title" ∷ "stats" ∷ []) props "stats" "default"
      props-Visits

resolve_props_partial_example :
    let reload = resolve_props ("log" ∷ "title" ∷ "stats" ∷ []) props "stats, title" "" "Home" in
    (lookup "stats" reload.props ≡ some "42")
    × (contains reload.ran "stats" ≡ true)
    × Distinct reload.ran
unfolding requested_keys lookup
resolve_props_partial_example =
    resolve_props_partial ("log" ∷ "title" ∷ "stats" ∷ []) props "stats, title" "" "Home" "stats"
      props-Visits refl

abbrev unmarshal : String → Option (List (String × ManifestEntry))
unmarshal text = some (
    (
      "src/inertia.tsx",
      record {
        file = text;
        name = "inertia";
        src = "src/inertia.tsx";
        is_entry = true;
        imports = [];
        css = "a.css" ∷ [];
      },
    )
    ∷ [])

abbrev assets : Assets
assets = record {
  loaded = false;
  js_file = "";
  css_file = "";
  dev_mode = false;
  page_title = "Fusionaly";
  manifest_data = "";
}

load_manifest_twice_example :
    load_manifest unmarshal (λ path. none) (load_manifest unmarshal (λ path. some "a.js") assets)
    ≡ load_manifest unmarshal (λ path. some "a.js") assets
load_manifest_twice_example =
    load_manifest_twice unmarshal (λ path. some "a.js") (λ path. none) assets

abbrev marshal : Page String → Option String
marshal page = some (concat (page.component ∷ "'" ∷ page.url ∷ []))

abbrev request : PageRequest
request = record {
  path = "/";
  query = "tab=1";
  x_inertia = "";
  partial_data = "";
  partial_component = "";
  cookies = λ name. "";
}

abbrev rendered : List String → PageRequest → Rendered String
rendered visit r =
    render codec (λ m. m.message) unmarshal marshal (λ path. some "a.js") (pos 5) visit assets r
      "Home" props

abbrev with_flash : String → List (String × Prop String)
with_flash text = insert "flash" (plain text) props

abbrev in_order : List String
in_order = "title" ∷ "stats" ∷ "log" ∷ "flash" ∷ []

abbrev another_order : List String
another_order = "flash" ∷ "log" ∷ "title" ∷ "stats" ∷ []

in_order-Visits : (text : String) → Visits in_order (with_flash text)
unfolding insert
in_order-Visits text = record { distinct = (refl, (refl, (refl, (refl, tt)))); same = λ k. refl }

another_order-Visits : (text : String) → Visits another_order (with_flash text)
unfolding insert
another_order-Visits text = record {
  distinct = (refl, (refl, (refl, (refl, tt))));
  same = λ k. ground arith;
}

render-as_html_example :
    let first = rendered in_order request in
    let json = rendered another_order (record request { x_inertia = "true"; partial_data = "" }) in
    (first.body ≡ or_failed (λ text. sent_html (html_page first.assets text)) (marshal first.page))
    × (json.body ≡ or_failed sent_json (marshal json.page))
    × (first.page.component ≡ json.page.component)
    × (first.page.url ≡ json.page.url)
    × ((k : String)
        → (lookup k first.page.props ≡ at_first (lookup k (with_flash "")))
          × (lookup k json.page.props ≡ at_first (lookup k (with_flash ""))))
    × ((g k : String)
        → contains (keys_in g (groups_of first.page)) k
          ≡ contains (keys_in g (groups_of json.page)) k)
    × (first.cookie ≡ json.cookie)
unfolding inject_flash get_flash lookup
render-as_html_example =
    render-as_html codec (λ m. m.message) unmarshal marshal (λ path. some "a.js") (pos 5) in_order
      another_order assets request "Home" props refl (in_order-Visits "") (another_order-Visits "")

-- The cookie of SetFlash for a message "hi" of type "ok".
abbrev greeting : Cookie
greeting = record {
  name = "fusionaly_flash";
  value = "1o1k0hi";
  path = "/";
  max_age = pos 60;
  expires = none;
  secure = false;
  http_only = true;
  same_site = "Lax";
}

set_flash-greeting : set_flash codec "ok" "hi" [] ≡ some greeting
unfolding set_flash written
set_flash-greeting = refl

render-set_flash_example :
    let r = record request { cookies = with_cookie greeting (λ name. "") } in
    let out = rendered another_order r in
    (lookup "flash" out.page.props ≡ some "hi")
    × (out.body ≡ body_of r out.assets (marshal out.page))
    × (out.cookie ≡ some (expired_cookie codec (pos 5)))
unfolding lookup
render-set_flash_example =
    render-set_flash codec (λ m. m.message) unmarshal marshal (λ path. some "a.js") (pos 5)
      another_order assets request "Home" props "ok" "hi" [] greeting refl set_flash-greeting
      (another_order-Visits "hi")

render_twice_example :
    let r = record request { cookies = with_cookie greeting (λ name. "") } in
    let m = (get_flash codec (pos 5) r.cookies).0 in
    let first = rendered in_order r in
    let second =
      render codec
        (λ m. m.message)
        unmarshal
        marshal
        (λ path. none)
        (pos 9)
        another_order
        first.assets
        request
        "About"
        first.props in
    (lookup "flash" first.props ≡ some (plain m.message))
    × (second.props ≡ first.props)
    × (lookup "flash" second.page.props ≡ some m.message)
    × (second.cookie ≡ none)
unfolding lookup
render_twice_example =
    let r = record request { cookies = with_cookie greeting (λ name. "") } in
    render_twice codec (λ m. m.message) unmarshal marshal (λ path. some "a.js") (λ path. none)
      (pos 5) (pos 9) in_order another_order assets r request "Home" "About" props refl
      (another_order-Visits (get_flash codec (pos 5) r.cookies).0.message)
