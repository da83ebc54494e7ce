-- ===== src/Middleware/SecFetch.antt =====
-- middleware/sec_fetch.go: the check of the Sec-Fetch-Site header.
mod Tests
use cartridge.Prelude.{
  ℕ, ◌≡◌, ◌↔◌, ◌⊎◌, inl, inr, refl, arith, String, Bool, true, false, Option, none, some, List, [],
  ◌∷◌, ◌==◌, string_comparable, if◌then◌else◌, contains, not, ◌||◌, Bool-cases,
}
use cartridge.Middleware.Chain.{Request, Response, json, Verdict, answer, next, Handler}

-- `none` is a nil slice or a nil function.
pub record SecFetchSiteConfig : Type 0 where
  pub allowed_values : Option (List String)
  pub methods : Option (List String)
  pub skip : Option (Request → Bool)

unfoldable pub default_allowed_values : List String
default_allowed_values = "same-origin" ∷ "none" ∷ []

unfoldable pub default_methods : List String
default_methods = "POST" ∷ "PUT" ∷ "DELETE" ∷ "PATCH" ∷ []

unfoldable pub default_sec_fetch_site_config : SecFetchSiteConfig
default_sec_fetch_site_config = record {
  allowed_values = some default_allowed_values;
  methods = some default_methods;
  skip = none;
}

abbrev slice_or : List String → Option (List String) → List String
slice_or d none = d
slice_or d (some vs) = vs

-- The allowed values and the methods that are in force, and the function that skips the check.
unfoldable pub settings :
    Option SecFetchSiteConfig → List String × List String × Option (Request → Bool)
settings none = (default_allowed_values, default_methods, none)
settings (some cfg) = (
  slice_or default_allowed_values cfg.allowed_values,
  slice_or default_methods cfg.methods,
  cfg.skip,
)

abbrev pub skips : Option (Request → Bool) → Request → Bool
skips none r = false
skips (some f) r = f r

-- The answer by its four conditions.
abbrev decide : Bool → Bool → Bool → Bool → Verdict
decide skip covered missing allowed =
    if skip
    then next
    else if not covered
    then next
    else if missing
    then answer (json 403 "forbidden" "browser requests only")
    else if not allowed
    then answer (json 403 "forbidden" "cross-site request blocked")
    else next

unfoldable pub sec_fetch_site_middleware : Option SecFetchSiteConfig → Handler
unfolding settings
sec_fetch_site_middleware config r =
    let (allowed, methods, skip) = settings config in
    let site = r.header "Sec-Fetch-Site" in
    decide (skips skip r) (contains methods r.method) (site == "") (contains allowed site)

decide_next :
    (skip covered missing allowed : Bool)
    → (decide skip covered missing allowed ≡ next)
      ↔ ((skip ≡ true) ⊎ (covered ≡ false) ⊎ ((missing ≡ false) × (allowed ≡ true)))
decide_next true c m a = (λ h. inl refl, λ h. refl)
decide_next false false m a = (λ h. inr (inl refl), λ h. refl)
decide_next false true true a = ground arith
decide_next false true false true = (λ h. inr (inr (refl, refl)), λ h. refl)
decide_next false true false false = ground arith

-- The check lets a request through exactly when it is skipped, or its method is not checked, or
-- its Sec-Fetch-Site header is present and one of the allowed values.
pub middleware-next_iff :
    (config : Option SecFetchSiteConfig) (r : Request)
    → (sec_fetch_site_middleware config r ≡ next) ↔ (
        (skips (settings config).2 r ≡ true)
        ⊎ (contains (settings config).1 r.method ≡ false)
        ⊎ ((r.header "Sec-Fetch-Site" == "" ≡ false)
            × (contains (settings config).0 (r.header "Sec-Fetch-Site") ≡ true)))
unfolding sec_fetch_site_middleware
middleware-next_iff config r =
    decide_next (skips (settings config).2 r) (contains (settings config).1 r.method)
      (r.header "Sec-Fetch-Site" == "") (contains (settings config).0 (r.header "Sec-Fetch-Site"))

answers_of :
    (skip covered missing allowed : Bool) (a : Response)
    → decide skip covered missing allowed ≡ answer a
    → (m : String) × (a ≡ json 403 "forbidden" m)
answers_of true covered missing allowed a h = ground arith
answers_of false false missing allowed a h = ground arith
answers_of false true true allowed a h = ("browser requests only", ground arith)
answers_of false true false false a h = ("cross-site request blocked", ground arith)
answers_of false true false true a h = ground arith

blocks_of :
    (skip covered missing allowed : Bool)
    → skip ≡ false
    → covered ≡ true
    → (missing ≡ true) ⊎ (allowed ≡ false)
    → (m : String) × (decide skip covered missing allowed ≡ answer (json 403 "forbidden" m))
blocks_of true covered missing allowed s c a = ground arith
blocks_of false false missing allowed s c a = ground arith
blocks_of false true true allowed s c a = ("browser requests only", refl)
blocks_of false true false false s c a = ("cross-site request blocked", refl)
blocks_of false true false true s c a = ground arith

pub middleware_blocks :
    (config : Option SecFetchSiteConfig) (r : Request)
    → skips (settings config).2 r ≡ false
    → contains (settings config).1 r.method ≡ true
    → (r.header "Sec-Fetch-Site" == "" ≡ true)
      ⊎ (contains (settings config).0 (r.header "Sec-Fetch-Site") ≡ false)
    → (m : String) × (sec_fetch_site_middleware config r ≡ answer (json 403 "forbidden" m))
unfolding sec_fetch_site_middleware
middleware_blocks config r =
    blocks_of (skips (settings config).2 r) (contains (settings config).1 r.method)
      (r.header "Sec-Fetch-Site" == "") (contains (settings config).0 (r.header "Sec-Fetch-Site"))

-- A request that the check blocks is answered with status 403, whatever the configuration.
pub middleware-answer :
    (config : Option SecFetchSiteConfig) (r : Request) (a : Response)
    → sec_fetch_site_middleware config r ≡ answer a
    → (m : String) × (a ≡ json 403 "forbidden" m)
unfolding sec_fetch_site_middleware
middleware-answer config r a h =
    answers_of (skips (settings config).2 r) (contains (settings config).1 r.method)
      (r.header "Sec-Fetch-Site" == "") (contains (settings config).0 (r.header "Sec-Fetch-Site")) a
      h
