-- ===== src/Server/Routes.antt =====
-- server.go, registerRoute: the handlers of a route in their order. The CORS handler, the write
-- limit, the custom middleware and the route's own handler are parameters.
use cartridge.Prelude.{
  ◌≡◌, refl, ◌∙◌, ap, String, Bool, true, false, not, ◌&&◌, Option, none, some, List, [], ◌∷◌, ◌++◌,
  string_comparable, if◌then◌else◌, ◌==◌, contains, Bool-cases, inl, inr, ◌⊎◌,
}
use cartridge.Middleware.Chain.{Request, Response, json, Verdict, answer, next, Handler, serve}
use cartridge.Middleware.SecFetch.{
  SecFetchSiteConfig, sec_fetch_site_middleware, default_methods, settings, middleware-next_iff,
  middleware_blocks,
}
use cartridge.Server.{ServerConfig, Server, route}

pub record CorsConfig : Type 0 where
  pub allow_origins : String
  pub allow_methods : String
  pub allow_headers : String

unfoldable pub default_cors : CorsConfig
default_cors = record {
  allow_origins = "*";
  allow_methods = "GET,POST,PUT,DELETE,PATCH,OPTIONS";
  allow_headers = "Origin, Content-Type, Accept, Authorization";
}

pub record RouteConfig : Type 0 where
  pub enable_cors : Bool
  pub cors_config : Option CorsConfig
  pub write_concurrency : Bool
  pub enable_sec_fetch_site : Option Bool
  pub custom_middleware : List Handler

unfoldable pub opts_out : Option RouteConfig → Bool
opts_out none = false
opts_out (some rc) = elim rc.enable_sec_fetch_site [ none ↦ false | some b ↦ not b ]

-- The SecFetchSite configuration of the routes of a server.
unfoldable pub sec_fetch_config : ServerConfig → SecFetchSiteConfig
sec_fetch_config cfg = record {
  allowed_values = elim cfg.sec_fetch_site_allowed_values [ [] ↦ none | v ∷ vs ↦ some (v ∷ vs) ];
  methods = none;
  skip = none;
}

unfoldable pub sec_fetch_handlers : ServerConfig → Option RouteConfig → List Handler
sec_fetch_handlers cfg rc =
    if cfg.enable_sec_fetch_site && not (opts_out rc)
    then sec_fetch_site_middleware (some (sec_fetch_config cfg)) ∷ []
    else []

blocks :
    (cfg : ServerConfig) (r : Request)
    → contains default_methods r.method ≡ true
    → (r.header "Sec-Fetch-Site" == "" ≡ true)
      ⊎ (contains (settings (some (sec_fetch_config cfg))).0 (r.header "Sec-Fetch-Site") ≡ false)
    → (m : String) × (sec_fetch_site_middleware (some (sec_fetch_config cfg)) r
        ≡ answer (json 403 "forbidden" m))
unfolding sec_fetch_config settings
blocks cfg r c a = middleware_blocks (some (sec_fetch_config cfg)) r refl c a

passes :
    (cfg : ServerConfig) (r : Request)
    → contains default_methods r.method ≡ false
    → sec_fetch_site_middleware (some (sec_fetch_config cfg)) r ≡ next
unfolding sec_fetch_config settings
passes cfg r c = (middleware-next_iff (some (sec_fetch_config cfg)) r).1 (inr (inl c))

handlers_if : ServerConfig → Bool → List Handler
handlers_if cfg b = if b then sec_fetch_site_middleware (some (sec_fetch_config cfg)) ∷ [] else []

handlers_on :
    (cfg : ServerConfig) (rc : Option RouteConfig)
    → cfg.enable_sec_fetch_site ≡ true
    → opts_out rc ≡ false
    → sec_fetch_handlers cfg rc ≡ sec_fetch_site_middleware (some (sec_fetch_config cfg)) ∷ []
unfolding sec_fetch_handlers handlers_if
handlers_on cfg rc e o =
    ap (λ b. handlers_if cfg (b && not (opts_out rc))) e
    ∙ ap (λ b. handlers_if cfg (true && not b)) o

and_false : (b : Bool) → (b && false) ≡ false
and_false true = refl
and_false false = refl

handlers_off :
    (cfg : ServerConfig) (rc : Option RouteConfig)
    → opts_out rc ≡ true
    → sec_fetch_handlers cfg rc ≡ []
unfolding sec_fetch_handlers handlers_if
handlers_off cfg rc o =
    ap (λ b. handlers_if cfg (cfg.enable_sec_fetch_site && not b)) o
    ∙ ap (handlers_if cfg) (and_false cfg.enable_sec_fetch_site)

-- What a request is answered with, by the verdict of the check and the answer without it.
abbrev pub after_check : Verdict → Response → Response
after_check next rest = rest
after_check (answer a) rest = a

module _ (cors : CorsConfig → Handler) (write_limit : Handler) where
  unfoldable pub cors_handlers : RouteConfig → List Handler
  cors_handlers rc =
      if rc.enable_cors
      then cors (elim rc.cors_config [ none ↦ default_cors | some c ↦ c ]) ∷ []
      else []

  unfoldable pub limit_handlers : RouteConfig → List Handler
  limit_handlers rc = if rc.write_concurrency then write_limit ∷ [] else []

  unfoldable pub config_handlers : Option RouteConfig → List Handler
  config_handlers none = []
  config_handlers (some rc) = cors_handlers rc ++ limit_handlers rc ++ rc.custom_middleware

  unfoldable pub route_handlers : ServerConfig → Option RouteConfig → List Handler
  unfolding sec_fetch_handlers
  route_handlers cfg rc = sec_fetch_handlers cfg rc ++ config_handlers rc

  unfoldable pub register_route :
      String → String → (Request → Response) → Option RouteConfig → Server → Server
  unfolding route_handlers
  register_route method path handler rc s = record s {
    app = s.app ++ route method path (route_handlers s.cfg rc) handler ∷ [];
  }

  unfoldable pub get : String → (Request → Response) → Option RouteConfig → Server → Server
  get = register_route "GET"

  unfoldable pub post : String → (Request → Response) → Option RouteConfig → Server → Server
  post = register_route "POST"

  unfoldable pub put : String → (Request → Response) → Option RouteConfig → Server → Server
  put = register_route "PUT"

  unfoldable pub delete : String → (Request → Response) → Option RouteConfig → Server → Server
  delete = register_route "DELETE"

  unfoldable pub patch : String → (Request → Response) → Option RouteConfig → Server → Server
  patch = register_route "PATCH"

  unfoldable pub options : String → (Request → Response) → Option RouteConfig → Server → Server
  options = register_route "OPTIONS"

  unfoldable pub head : String → (Request → Response) → Option RouteConfig → Server → Server
  head = register_route "HEAD"

  blocked_first :
      (f : Handler) (hs : List Handler) (final : Request → Response) (r : Request) (a : Response)
      → f r ≡ answer a
      → serve (f ∷ hs) final r ≡ a
  unfolding serve
  blocked_first f hs final r a h = rw h refl

  passed_first :
      (f : Handler) (hs : List Handler) (final : Request → Response) (r : Request)
      → f r ≡ next
      → serve (f ∷ hs) final r ≡ serve hs final r
  unfolding serve
  passed_first f hs final r h = rw h refl

  checked_first :
      (f : Handler) (hs : List Handler) (final : Request → Response) (r : Request) (v : Verdict)
      → f r ≡ v
      → serve (f ∷ hs) final r ≡ after_check v (serve hs final r)
  checked_first f hs final r next h = passed_first f hs final r h
  checked_first f hs final r (answer a) h = blocked_first f hs final r a h

  pub route_checked :
      (cfg : ServerConfig) (rc : Option RouteConfig) (final : Request → Response) (r : Request)
      (v : Verdict)
      → cfg.enable_sec_fetch_site ≡ true
      → opts_out rc ≡ false
      → sec_fetch_site_middleware (some (sec_fetch_config cfg)) r ≡ v
      → serve (route_handlers cfg rc) final r ≡ after_check v (serve (config_handlers rc) final r)
  unfolding route_handlers
  route_checked cfg rc final r v e o h =
      ap (λ hs. serve (hs ++ config_handlers rc) final r) (handlers_on cfg rc e o)
      ∙ checked_first _ (config_handlers rc) final r v h

  -- On a route whose server checks Sec-Fetch-Site and which does not opt out, a request of a
  -- checked method whose Sec-Fetch-Site header is missing or empty, also where the empty text is an
  -- allowed value, or is not an allowed value, is answered with status 403: no CORS handler, write
  -- limit, custom middleware or handler of the route changes that answer.
  pub register_route-refuses :
      (cfg : ServerConfig) (rc : Option RouteConfig) (final : Request → Response) (r : Request)
      → cfg.enable_sec_fetch_site ≡ true
      → opts_out rc ≡ false
      → contains default_methods r.method ≡ true
      → (r.header "Sec-Fetch-Site" == "" ≡ true)
        ⊎ (contains (settings (some (sec_fetch_config cfg))).0 (r.header "Sec-Fetch-Site") ≡ false)
      → (m : String) × (serve (route_handlers cfg rc) final r ≡ json 403 "forbidden" m)
  unfolding route_handlers
  register_route-refuses cfg rc final r e o c a =
      let (m, b) = blocks cfg r c a in
      (
        m,
        ap (λ hs. serve (hs ++ config_handlers rc) final r) (handlers_on cfg rc e o)
            ∙ blocked_first _ (config_handlers rc) final r _ b,
      )

  -- A request of a method that is not checked, so also a CORS preflight, and every request of a
  -- route without the check, meets the handlers of the route's configuration as if the check were
  -- not registered before them.
  pub register_route-unchecked :
      (cfg : ServerConfig) (rc : Option RouteConfig) (final : Request → Response) (r : Request)
      → (contains default_methods r.method ≡ false)
        ⊎ (opts_out rc ≡ true)
        ⊎ (cfg.enable_sec_fetch_site ≡ false)
      → serve (route_handlers cfg rc) final r ≡ serve (config_handlers rc) final r
  unfolding route_handlers sec_fetch_handlers
  register_route-unchecked cfg rc final r (inl c) =
      elim (Bool-cases (cfg.enable_sec_fetch_site && not (opts_out rc))) [
        | inl t ↦ rw t (passed_first _ (config_handlers rc) final r (passes cfg r c))
        | inr t ↦ rw t refl
      ]
  register_route-unchecked cfg rc final r (inr (inl o)) =
      ap (λ hs. serve (hs ++ config_handlers rc) final r) (handlers_off cfg rc o)
  register_route-unchecked cfg rc final r (inr (inr e)) = rw e refl
