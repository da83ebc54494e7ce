-- ===== src/Inertia/Page/Answers.antt =====
-- inertia/inertia.go: what Render answers to the kinds of request, and what it does with the flash
-- message and the caller's props.
use cartridge.Prelude.{
  ◌≡◌, refl, sym, subst, ◌∙◌, String, Bool, true, Option, none, some, List, ◌==◌, arith, append,
  escape_string, until_quote, until_quote-escape_string, string_comparable, ap, contains,
}
use cartridge.Prelude.Int.{ℤ}
use cartridge.GoMap.{lookup, insert, Visits}
use cartridge.GoMap.Laws.{lookup-insert, is_some}
use cartridge.Flash.{
  FlashCodec, FlashMessage, Cookie, get_flash, set_flash, with_cookie, expired_cookie,
  get-set_flash,
}
use cartridge.Inertia.Manifest.{ManifestEntry, Assets}
use cartridge.Inertia.Props.{Prop, plain, keys_in}
use cartridge.Inertia.Props.Loads.{at_first}
use cartridge.Inertia.Page.{
  PageRequest, Page, sent_json, sent_html, html_page, html_before, full_url, inject_flash, render,
  or_failed,
}
use cartridge.Inertia.Page.Contents.{
  body_of, groups_of, parts-render, lookup-load_page, inject_flash_present, inject_flash_absent,
  message-render, message_in,
}

-- The page's object stands in an attribute that its text cannot end: up to the next single quote,
-- the attribute is the escaped JSON.
pub html_page_attribute :
    (a : Assets) (page_json : String)
    → (after : String) × (html_page a page_json ≡ append (html_before a) after)
      × (until_quote after ≡ escape_string page_json)
unfolding html_page
html_page_attribute a page_json = (_, refl, until_quote-escape_string page_json _)

module _ {ℓ} {V : Type ℓ} (codec : FlashCodec) (flash_value : FlashMessage → V)
    (unmarshal : String → Option (List (String × ManifestEntry))) (marshal : Page V → Option String)
    (read_file : String → Option String) (now : ℤ) where
  -- A visit whose request carries the cookie of SetFlash, by a handler that sets no "flash" prop: the
  -- page object that is marshalled for its answer has the message, unless it is a partial reload that
  -- does not name it, in whatever order `range` visits the props; the answer expires the cookie.
  pub render-set_flash :
      (visit : List String) (a : Assets) (r : PageRequest) (name : String)
      → (props : List (String × Prop V))
      → (message_type message : String) (secure : List Bool) (c : Cookie)
      → lookup "flash" props ≡ none
      → set_flash codec message_type message secure ≡ some c
      → let r' = record r { cookies = with_cookie c r.cookies } in
        let m : FlashMessage = record { type_name = message_type; message = message } in
        Visits visit (insert "flash" (plain (flash_value m)) props)
        → let out =
            render codec flash_value unmarshal marshal read_file now visit a r' name props in
          (lookup "flash" out.page.props ≡ message_in r' name (flash_value m))
          × (out.body ≡ body_of r' out.assets (marshal out.page))
          × (out.cookie ≡ some (expired_cookie codec now))
  render-set_flash visit a r name props message_type message secure c absent set v =
      let r' = record r { cookies = with_cookie c r.cookies } in
      let m : FlashMessage = record { type_name = message_type; message = message } in
      let read = get-set_flash codec now message_type message secure c r.cookies set in
      let injected =
        inject_flash_absent codec flash_value unmarshal marshal read_file now r' props absent
        ∙ ap (λ g. (insert "flash" (plain (flash_value g.0)) props, g.1)) read.0 in
      let (left, cookie, page, body) =
        parts-render codec flash_value unmarshal marshal read_file now visit a r' name props in
      (
        message-render codec flash_value unmarshal marshal read_file now visit a r' name props _ _
            (flash_value m) injected
            (ground (
              arith,
              lookup-insert "flash" "flash" (plain (flash_value m)) props,
              string_comparable.equal_iff "flash" "flash",
            ))
            v,
        body,
        cookie ∙ ap (λ x. x.1) injected,
      )

  -- A first visit, and an Inertia visit of the same address with the same cookies and no partial
  -- reload. The first is answered with the HTML page around the JSON of its page object, the other
  -- with the JSON of its own; the two objects have the same component and address, the values of the
  -- plain props of the map to which the flash message was added and no other props, and in each group
  -- the same deferred keys, in whatever two orders `range` visits the props; the cookies are the same.
  pub render-as_html :
      (visit visit' : List String) (a : Assets) (r : PageRequest) (name : String)
      → (props : List (String × Prop V)) → (r.x_inertia == "") ≡ true
      → let injected = (inject_flash codec flash_value now r props).0 in
        Visits visit injected
        → Visits visit' injected
        → let first =
            render codec flash_value unmarshal marshal read_file now visit a r name props in
          let r' = record r { x_inertia = "true"; partial_data = "" } in
          let json =
            render codec flash_value unmarshal marshal read_file now visit' a r' name props in
          (first.body
            ≡ or_failed (λ text. sent_html (html_page first.assets text)) (marshal first.page))
          × (json.body ≡ or_failed sent_json (marshal json.page))
          × (first.page.component ≡ json.page.component)
          × (first.page.url ≡ json.page.url)
          × ((k : String)
              → (lookup k first.page.props ≡ at_first (lookup k injected))
                × (lookup k json.page.props ≡ at_first (lookup k injected)))
          × ((g k : String)
              → contains (keys_in g (groups_of first.page)) k
                ≡ contains (keys_in g (groups_of json.page)) k)
          × (first.cookie ≡ json.cookie)
  unfolding render full_url inject_flash
  render-as_html visit visit' a r name props h v v' =
      let injected = (inject_flash codec flash_value now r props).0 in
      let r' = record r { x_inertia = "true"; partial_data = "" } in
      rw h (
        refl,
        refl,
        refl,
        refl,
        λ k. (
          (lookup-load_page codec flash_value unmarshal marshal read_file now visit r name injected
              k "" v).0,
          (lookup-load_page codec flash_value unmarshal marshal read_file now visit' r' name
              injected k "" v').0,
        ),
        λ g k.
            (lookup-load_page codec flash_value unmarshal marshal read_file now visit r name
              injected k g v).1
            ∙ sym
                (lookup-load_page codec flash_value unmarshal marshal read_file now visit' r' name
                  injected k g v').1,
        refl,
      )

module _ {ℓ} {V : Type ℓ} (codec : FlashCodec) (flash_value : FlashMessage → V)
    (unmarshal : String → Option (List (String × ManifestEntry)))
    (marshal : Page V → Option String) where
  -- Render adds the flash message to the map of its caller, which has no "flash" prop. A second page
  -- from the same map, for whatever request and at whatever time, has the message of the first
  -- request, unless it is a partial reload that does not name it, in whatever order `range` visits
  -- the props; it leaves the map and the cookie of its own request as they are.
  pub render_twice :
      (read_file read_file' : String → Option String) (now now' : ℤ) (visit visit' : List String)
      (a : Assets) (r r' : PageRequest) (name name' : String)
      → (props : List (String × Prop V)) → lookup "flash" props ≡ none
      → let m = (get_flash codec now r.cookies).0 in
        Visits visit' (insert "flash" (plain (flash_value m)) props)
        → let first =
            render codec flash_value unmarshal marshal read_file now visit a r name props in
          let second =
            render codec flash_value unmarshal marshal read_file' now' visit' first.assets r' name'
              first.props in
          (lookup "flash" first.props ≡ some (plain (flash_value m)))
          × (second.props ≡ first.props)
          × (lookup "flash" second.page.props ≡ message_in r' name' (flash_value m))
          × (second.cookie ≡ none)
  render_twice read_file read_file' now now' visit visit' a r r' name name' props absent vs =
      let v = flash_value (get_flash codec now r.cookies).0 in
      let first = render codec flash_value unmarshal marshal read_file now visit a r name props in
      let left : first.props ≡ insert "flash" (plain v) props =
        (parts-render codec flash_value unmarshal marshal read_file now visit a r name props).0
        ∙ ap (λ x. x.0)
            (inject_flash_absent codec flash_value unmarshal marshal read_file now r props
              absent) in
      let has : lookup "flash" first.props ≡ some (plain v) = ground (
        arith,
        left,
        lookup-insert "flash" "flash" (plain v) props,
        string_comparable.equal_iff "flash" "flash",
      ) in
      let kept =
        inject_flash_present codec flash_value unmarshal marshal read_file' now' r' first.props
          (ap is_some has) in
      let second =
        parts-render codec flash_value unmarshal marshal read_file' now' visit' first.assets r'
          name' first.props in
      (
        has,
        second.0 ∙ ap (λ x. x.0) kept,
        message-render codec flash_value unmarshal marshal read_file' now' visit' first.assets r'
            name' first.props first.props none v kept has (subst (Visits visit') (sym left) vs),
        second.1 ∙ ap (λ x. x.1) kept,
      )
