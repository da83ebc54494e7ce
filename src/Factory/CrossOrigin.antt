-- ===== src/Factory/CrossOrigin.antt =====
-- inertia_factory.go: InertiaWithCrossOriginAPI, and a route of the application that NewInertiaApp
-- makes.
use cartridge.Prelude.{
  ◌≡◌, refl, ap, sym, ◌∙◌, String, Bool, true, false, not, ◌||◌, Option, none, some, List, [], ◌∷◌,
  ◌++◌, ◌⊎◌, inl, inr, if◌then◌else◌, string_comparable, ◌==◌, contains, arith,
}
use cartridge.Config.{Config}
use cartridge.Inertia.Manifest.{Assets}
use cartridge.Middleware.Chain.{Request, Response, Verdict, answer, next, json, Handler, serve}
use cartridge.Middleware.SecFetch.{
  sec_fetch_site_middleware, default_methods, default_allowed_values, settings,
}
use cartridge.Server.{
  Server, Registration, route, fresh_server, set_session, set_catch_all_redirect,
  default_server_config,
}
use cartridge.Server.Routes.{
  CorsConfig, RouteConfig, opts_out, sec_fetch_config, config_handlers, route_handlers,
  register_route, route_checked, after_check,
}
use cartridge.Session.{SessionManager}
use cartridge.Factory.{World, FactoryError, runtime_of, run_hook, attach, redirecting}
use cartridge.Factory.InertiaApp.{
  InertiaConfig, InertiaApp, InertiaOption, factory_config, inertia_with_cross_origin_api,
  no_inertia_options, apply_inertia_option, apply_inertia_options, new_inertia_app,
  inertia_server_config,
}
use cartridge.Factory.InertiaWiring.{InertiaParts, new_inertia_app-InertiaParts}

-- InertiaWithCrossOriginAPI is among the options.
abbrev pub asks_cross_origin : List InertiaOption → Bool
asks_cross_origin [] = false
asks_cross_origin (inertia_with_cross_origin_api ∷ opts) = true
asks_cross_origin (_ ∷ opts) = asks_cross_origin opts

or_true : (b : Bool) → (b || true) ≡ true
or_true true = refl
or_true false = refl

-- The option sets the flag, and no other option touches it.
cross_origin-apply_inertia_options :
    (opts : List InertiaOption) (o : InertiaConfig)
    → (apply_inertia_options opts o).cross_origin_api
      ≡ (o.cross_origin_api || asks_cross_origin opts)
unfolding apply_inertia_options apply_inertia_option
cross_origin-apply_inertia_options [] o = ground arith
cross_origin-apply_inertia_options (inertia_with_cross_origin_api ∷ opts) o =
    cross_origin-apply_inertia_options opts (apply_inertia_option inertia_with_cross_origin_api o)
    ∙ sym (or_true o.cross_origin_api)
cross_origin-apply_inertia_options (opt ∷ opts) o =
    cross_origin-apply_inertia_options opts (apply_inertia_option opt o)

allowed_cross_site :
    (cross : Bool)
    → let values : List String =
        if cross then "cross-site" ∷ "same-site" ∷ "same-origin" ∷ [] else [] in
      let given : Option (List String) = elim values [ [] ↦ none | v ∷ vs ↦ some (v ∷ vs) ] in
      let allowed : List String = elim given [ none ↦ default_allowed_values | some vs ↦ vs ] in
      let refused : Verdict = answer (json 403 "forbidden" "cross-site request blocked") in
      (if not (contains allowed "cross-site") then refused else next)
      ≡ (if cross then next else refused)
unfolding default_allowed_values
allowed_cross_site true = refl
allowed_cross_site false = refl

cross_site_checked :
    (c : Config) (o : InertiaConfig) (r : Request)
    → contains default_methods r.method ≡ true
    → r.header "Sec-Fetch-Site" ≡ "cross-site"
    → sec_fetch_site_middleware (some (sec_fetch_config (inertia_server_config c o))) r ≡ (
        if o.cross_origin_api
        then next
        else answer (json 403 "forbidden" "cross-site request blocked"))
unfolding sec_fetch_site_middleware sec_fetch_config inertia_server_config settings
cross_site_checked c o r covered site = rw (site, covered) (allowed_cross_site o.cross_origin_api)

-- The parts of an application that is made.
made_of :
    (w : World) (assets : Assets) (o : InertiaConfig) (c : Config) (x : FactoryError ⊎ InertiaApp)
    → InertiaParts w assets o c x
    → (app : InertiaApp) × (x ≡ inr app)
      × (app.server
          ≡ redirecting o.catch_all_redirect (
              run_hook o.routes (
                attach app.session
                  (fresh_server (inertia_server_config c o) w.on_disk (runtime_of c)))))
made_of w assets o c (inl e) p = absurd p
made_of w assets o c (inr app) p = (app, refl, p.3)

app-redirecting : (path : String) (s : Server) → (redirecting path s).app ≡ s.app
unfolding redirecting set_catch_all_redirect
app-redirecting path s = app_of (path == "")
  where
    app_of : (b : Bool) → (if b then s else record s { catch_all = path }).app ≡ s.app
    app_of true = refl
    app_of false = refl

cfg-attach : (sm : Option SessionManager) (s : Server) → (attach sm s).cfg ≡ s.cfg
unfolding set_session
cfg-attach none s = refl
cfg-attach (some m) s = refl

either :
    (b : Bool) (rest : Response)
    → after_check
        (if b then next else answer (json 403 "forbidden" "cross-site request blocked"))
        rest
      ≡ (if b then rest else json 403 "forbidden" "cross-site request blocked")
either true rest = refl
either false rest = refl

module _ (cors : CorsConfig → Handler) (write_limit : Handler) where
  route_served :
      (opts : List InertiaOption) (c : Config) (final : Request → Response)
      (rc : Option RouteConfig) (r : Request)
      → opts_out rc ≡ false
      → contains default_methods r.method ≡ true
      → r.header "Sec-Fetch-Site" ≡ "cross-site"
      → serve
          (route_handlers cors write_limit
            (inertia_server_config c (apply_inertia_options opts no_inertia_options))
            rc)
          final
          r
        ≡ (if asks_cross_origin opts
            then serve (config_handlers cors write_limit rc) final r
            else json 403 "forbidden" "cross-site request blocked")
  unfolding inertia_server_config default_server_config
  route_served opts c final rc r in_scope covered site =
      let o = apply_inertia_options opts no_inertia_options in
      let rest = serve (config_handlers cors write_limit rc) final r in
      let refused : Verdict = answer (json 403 "forbidden" "cross-site request blocked") in
      route_checked cors write_limit (inertia_server_config c o) rc final r
        (if asks_cross_origin opts then next else refused) refl in_scope
        (cross_site_checked c o r covered site
          ∙ ap (λ (b : Bool). if b then next else refused)
              (cross_origin-apply_inertia_options opts no_inertia_options))
      ∙ either (asks_cross_origin opts) rest

  -- NewInertiaApp with a configuration of package config, and a routes callback that registers one
  -- route, without opting out of the Sec-Fetch-Site check. In the application that it makes the
  -- route's handlers answer a cross-site request with a method that is checked as if there were no
  -- check when InertiaWithCrossOriginAPI is among the options, wherever it stands, and with status
  -- 403 when it is not.
  pub new_inertia_app_cross_origin :
      (w : World) (assets : Assets) (opts : List InertiaOption) (c : Config) (method path : String)
      (final : Request → Response) (rc : Option RouteConfig) (r : Request)
      → (apply_inertia_options opts no_inertia_options).cfg ≡ some (factory_config c)
      → (apply_inertia_options opts no_inertia_options).routes
        ≡ some (register_route cors write_limit method path final rc)
      → opts_out rc ≡ false
      → contains default_methods r.method ≡ true
      → r.header "Sec-Fetch-Site" ≡ "cross-site"
      → (app : InertiaApp) × (before : List Registration) × (hs : List Handler) × (new_inertia_app w
            assets opts
          ≡ inr app)
        × (app.server.app ≡ before ++ route method path hs final ∷ [])
        × (serve hs final r ≡ (
            if asks_cross_origin opts
            then serve (config_handlers cors write_limit rc) final r
            else json 403 "forbidden" "cross-site request blocked"))
  unfolding register_route
  new_inertia_app_cross_origin w assets opts c method path final rc r given mounts in_scope covered
        site =
      let o = apply_inertia_options opts no_inertia_options in
      let (app, made, server) =
        made_of w assets o c _ (new_inertia_app-InertiaParts w assets opts c given).0 in
      let fresh = fresh_server (inertia_server_config c o) w.on_disk (runtime_of c) in
      let s = attach app.session fresh in
      (
        app,
        s.app,
        route_handlers cors write_limit s.cfg rc,
        made,
        ap (λ t. t.app) server
            ∙ app-redirecting o.catch_all_redirect (run_hook o.routes s)
            ∙ ap (λ h. (run_hook h s).app) mounts,
        ap (λ cfg. serve (route_handlers cors write_limit cfg rc) final r)
              (cfg-attach app.session fresh)
            ∙ route_served opts c final rc r in_scope covered site,
      )
