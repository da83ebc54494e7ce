-- ===== src/Inertia/Manifest.antt =====
-- inertia/inertia.go: the paths of the scripts and styles, from Vite's manifest. Package variables are
-- a state; the files that os.ReadFile finds and what json.Unmarshal makes of them are arguments.
use cartridge.Prelude.{
  ◌≡◌, String, Bool, true, Option, none, some, List, [], ◌∷◌, ◌==◌, if◌then◌else◌, arith, concat,
  string_comparable,
}
use cartridge.GoMap.{lookup}

pub record ManifestEntry : Type 0 where
  pub file : String
  pub name : String
  pub src : String
  pub is_entry : Bool
  pub imports : List String
  pub css : List String

-- The package's variables: `loaded` is set once manifestOnce has run.
pub record Assets : Type 0 where
  pub loaded : Bool
  pub js_file : String
  pub css_file : String
  pub dev_mode : Bool
  pub page_title : String
  pub manifest_data : String

unfoldable pub set_dev_mode : Bool → Assets → Assets
set_dev_mode enabled a = record a { dev_mode = enabled }

unfoldable pub set_title : String → Assets → Assets
set_title title a = record a { page_title = title }

unfoldable pub set_manifest_data : String → Assets → Assets
set_manifest_data text a = record a { manifest_data = text }

abbrev first_file : String → List String → String
first_file fallback [] = fallback
first_file fallback (f ∷ fs) = concat ("/" ∷ f ∷ [])

unfoldable pub entry_paths : Option (List (String × ManifestEntry)) → String × String
entry_paths none = ("/assets/inertia.js", "/assets/inertia.css")
entry_paths (some manifest) = elim (lookup "src/inertia.tsx" manifest) [
  | none ↦ ("/assets/inertia.js", "/assets/inertia.css")
  | some entry ↦ (concat ("/" ∷ entry.file ∷ []), first_file "/assets/inertia.css" entry.css)
]

-- The first of the two files that is there, else the embedded data where there is any.
unfoldable pub manifest_source : (String → Option String) → Assets → Option String
manifest_source read_file a = elim (read_file "dist/.vite/manifest.json") [
  | some text ↦ some text
  | none ↦ elim (read_file "web/dist/.vite/manifest.json") [
    | some text ↦ some text
    | none ↦ if a.manifest_data == "" then none else some a.manifest_data
  ]
]

module _ (unmarshal : String → Option (List (String × ManifestEntry))) where
  unfoldable pub read_manifest : (String → Option String) → Assets → String × String
  unfolding manifest_source entry_paths
  read_manifest read_file a = elim (manifest_source read_file a) [
    | none ↦ ("/assets/inertia.js", "/assets/inertia.css")
    | some text ↦ entry_paths (unmarshal text)
  ]

  unfoldable pub load_manifest : (String → Option String) → Assets → Assets
  unfolding read_manifest
  load_manifest read_file a =
      let (js, css) = read_manifest read_file a in
      if a.dev_mode
      then record a { js_file = js; css_file = css }
      else if a.loaded
      then a
      else record a { loaded = true; js_file = js; css_file = css }

  -- After a first load of the manifest, a later one finds the paths that the files have by then in
  -- development mode; otherwise it changes nothing, whatever the files have become.
  pub load_manifest_twice :
      (before after : String → Option String) (a : Assets)
      → let first = load_manifest before a in
        let second = load_manifest after first in
        if a.dev_mode
        then (second.js_file, second.css_file) ≡ read_manifest after a
        else second ≡ first
  unfolding load_manifest read_manifest manifest_source
  load_manifest_twice before after a = ground arith
