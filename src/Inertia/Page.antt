-- ===== src/Inertia/Page.antt =====
-- inertia/inertia.go: Render. The caller's props are a map that is not nil; Render adds to it, so the
-- result has the map too. encoding/json is `marshal`, the files and the embedded manifest are those
-- of Inertia.Manifest. The writers of fiber set the status and the type of a JSON body.
pub mod Contents
pub mod Answers
use cartridge.Prelude.{
  String, Bool, true, false, not, Option, none, some, List, [], ◌∷◌, ◌++◌, ◌==◌, if◌then◌else◌,
  concat, escape_string, string_comparable,
}
use cartridge.Prelude.Int.{ℤ}
use cartridge.GoMap.{lookup, insert}
use cartridge.Flash.{FlashCodec, FlashMessage, Cookie, get_flash}
use cartridge.Inertia.Manifest.{ManifestEntry, Assets, load_manifest}
use cartridge.Inertia.Props.{Prop, plain, is_partial, resolve_props, resolve_props_for_initial_load}

-- What Render reads of a request; an absent header is empty.
pub record PageRequest : Type 0 where
  pub path : String
  pub query : String
  pub x_inertia : String
  pub partial_data : String
  pub partial_component : String
  pub cookies : String → String

-- The page object; `deferred_props` is `none` where the object has no such key.
pub record Page {ℓ} (V : Type ℓ) : Type ℓ where
  pub component : String
  pub props : List (String × V)
  pub url : String
  pub version : String
  pub deferred_props : Option (List (String × List String))

pub data Body : Type 0 where
  sent_json : String → Body
  sent_html : String → Body
  failed : Body

-- What Render leaves and answers: `page` is the object that it marshals for the body.
pub record Rendered {ℓ} (V : Type ℓ) : Type ℓ where
  pub assets : Assets
  pub page : Page V
  pub props : List (String × Prop V)
  pub headers : List (String × String)
  pub cookie : Option Cookie
  pub body : Body

unfoldable pub full_url : PageRequest → String
full_url r = if r.query == "" then r.path else concat (r.path ∷ "?" ∷ r.query ∷ [])

abbrev pub css_link : String → String
css_link css_file =
    if css_file == ""
    then ""
    else concat ("<link rel=\"stylesheet\" href=\"" ∷ css_file ∷ "\">" ∷ [])

abbrev pub html_before : Assets → String
html_before a = concat (
    "<!DOCTYPE html>\n<html lang=\"en\">\n<head>\n    <meta charset=\"UTF-8\">\n"
    ∷ "    <meta name=\"viewport\" content=\"width=device-width, initial-scale=1.0\">\n"
    ∷ "    <link rel=\"icon\" type=\"image/svg+xml\" href=\"/favicon.svg\">\n    <title>"
    ∷ escape_string a.page_title
    ∷ "</title>\n    "
    ∷ css_link a.css_file
    ∷ "\n</head>\n<body>\n    <div id=\"app\" data-page='"
    ∷ [])

abbrev pub html_after : Assets → String
html_after a = concat (
    "></div>\n    <script type=\"module\" src=\"" ∷ a.js_file ∷ "\"></script>\n</body>\n</html>"
    ∷ [])

unfoldable pub html_page : Assets → String → String
html_page a page_json = concat (html_before a ∷ escape_string page_json ∷ "'" ∷ html_after a ∷ [])

abbrev pub or_failed : (String → Body) → Option String → Body
or_failed send none = failed
or_failed send (some text) = send text

abbrev pub unless_empty : List (String × List String) → Option (List (String × List String))
unless_empty [] = none
unless_empty (g ∷ gs) = some (g ∷ gs)

abbrev inertia_headers : List (String × String)
inertia_headers = ("X-Inertia", "true") ∷ ("Vary", "X-Inertia") ∷ []

abbrev html_headers : Assets → Option String → List (String × String)
html_headers a none = []
html_headers a (some page_json) =
    ("Content-Type", "text/html")
    ∷ ("Cache-Control", if a.dev_mode then "no-store" else "no-cache")
    ∷ []

module _ {ℓ} {V : Type ℓ} where
  unfoldable pub reload_page : List String → PageRequest → String → List (String × Prop V) → Page V
  reload_page visit r name props = record {
    component = name;
    props = (resolve_props visit props r.partial_data r.partial_component name).props;
    url = full_url r;
    version = "v1";
    deferred_props = none;
  }

  unfoldable pub load_page : List String → PageRequest → String → List (String × Prop V) → Page V
  load_page visit r name props =
      let loaded = resolve_props_for_initial_load visit props in
      record {
        component = name;
        props = loaded.props;
        url = full_url r;
        version = "v1";
        deferred_props = unless_empty loaded.deferred_keys;
      }

module _ {ℓ} {V : Type ℓ} (codec : FlashCodec) (flash_value : FlashMessage → V) where
  -- The props with the flash message, and the cookie that GetFlash adds.
  unfoldable pub inject_flash :
      ℤ → PageRequest → List (String × Prop V) → List (String × Prop V) × Option Cookie
  inject_flash now r props = elim (lookup "flash" props) [
    | some _ ↦ (props, none)
    | none ↦
        let (m, cookie) = get_flash codec now r.cookies in
        (insert "flash" (plain (flash_value m)) props, cookie)
  ]

module _ {ℓ} {V : Type ℓ} (codec : FlashCodec) (flash_value : FlashMessage → V)
    (unmarshal : String → Option (List (String × ManifestEntry)))
    (marshal : Page V → Option String) where
  abbrev pub json_answer : Assets → List (String × Prop V) × Option Cookie → Page V → Rendered V
  json_answer a (props, cookie) page = record {
    assets = a;
    page = page;
    props = props;
    headers = inertia_headers;
    cookie = cookie;
    body = or_failed sent_json (marshal page);
  }

  abbrev pub html_answer : Assets → List (String × Prop V) × Option Cookie → Page V → Rendered V
  html_answer a (props, cookie) page =
      let text = marshal page in
      record {
        assets = a;
        page = page;
        props = props;
        headers = html_headers a text;
        cookie = cookie;
        body = or_failed (λ page_json. sent_html (html_page a page_json)) text;
      }

  -- `visit` is the order in which this call's `range` visits the props, the flash message among them.
  -- Each branch makes its own page.
  unfoldable pub render :
      (String → Option String)
      → ℤ
      → List String
      → Assets
      → PageRequest
      → String
      → List (String × Prop V)
      → Rendered V
  unfolding inject_flash reload_page load_page
  render read_file now visit assets r name props =
      let a = load_manifest unmarshal read_file assets in
      let injected = inject_flash codec flash_value now r props in
      if not (r.x_inertia == "")
      then if is_partial r.partial_data r.partial_component name
        then json_answer a injected (reload_page visit r name injected.0)
        else json_answer a injected (load_page visit r name injected.0)
      else html_answer a injected (load_page visit r name injected.0)
