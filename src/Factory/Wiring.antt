-- ===== src/Factory/Wiring.antt =====
-- factory.go: when NewSSRApp makes an application, and what its parts are.
use cartridge.Prelude.{
  ℕ, ◌≡◌, refl, ap, sym, subst, ◌∙◌, String, Bool, true, false, none, some, List, [], ◌∷◌, ◌++◌,
  ◌⊎◌, inl, inr, ◌==◌, arith, string_comparable,
}
use Prim.Native.String as Str
use cartridge.Config.{Config, Loaded, loaded, load_failed, is_production}
use cartridge.Config.Loads.{is_loaded, load-Ready}
use cartridge.Server.{new_server, fresh_server}
use cartridge.Session.{SessionManager, new_session_manager}
use cartridge.Factory.{
  World, JobGroup, Worker, dispatcher, FactoryError, dispatchers, session_for, runtime_of,
  new_application, run_hook, attach, bytes_of,
}
use cartridge.Factory.SsrApp.{
  SsrConfig, SsrApp, AppOption, with_jobs, no_options, apply_option, apply_options_to, config_of,
  mounted, new_ssr_app, with_loaded, with_server, server_config_of,
}

abbrev pub is_made {ℓ κ} : {A : Type ℓ} {B : Type κ} → A ⊎ B → Bool
is_made (inl e) = false
is_made (inr app) = true

-- The dispatchers and workers that an option asks for.
abbrev pub jobs_of : AppOption → List Worker
jobs_of (with_jobs interval processors) = dispatcher interval processors ∷ []
jobs_of _ = []

-- Those of all options, in the order of the call.
abbrev pub each {ℓ} : {A : Type ℓ} → (A → List Worker) → List A → List Worker
each f [] = []
each f (opt ∷ opts) = f opt ++ each f opts

pub append_assoc : (xs ys zs : List Worker) → (xs ++ ys) ++ zs ≡ xs ++ (ys ++ zs)
append_assoc [] ys zs = refl
append_assoc (x ∷ xs) ys zs = ap (◌∷◌ x) (append_assoc xs ys zs)

pub append_nil : (xs : List Worker) → xs ++ [] ≡ xs
append_nil [] = refl
append_nil (x ∷ xs) = ap (◌∷◌ x) (append_nil xs)

pub dispatchers-append :
    (gs hs : List JobGroup) → dispatchers (gs ++ hs) ≡ dispatchers gs ++ dispatchers hs
unfolding dispatchers
dispatchers-append [] hs = refl
dispatchers-append (g ∷ gs) hs =
    ap (◌∷◌ (dispatcher g.interval g.processors)) (dispatchers-append gs hs)

job_groups-apply_option :
    (opt : AppOption) (o : SsrConfig)
    → dispatchers (apply_option opt o).job_groups ≡ dispatchers o.job_groups ++ jobs_of opt
unfolding apply_option dispatchers
job_groups-apply_option (with_jobs interval processors) o = dispatchers-append o.job_groups _
job_groups-apply_option _ o = sym (append_nil _)

job_groups-apply_options_to :
    (opts : List AppOption) (o : SsrConfig)
    → dispatchers (apply_options_to opts o).job_groups
      ≡ dispatchers o.job_groups ++ each jobs_of opts
unfolding apply_options_to
job_groups-apply_options_to [] o = sym (append_nil _)
job_groups-apply_options_to (opt ∷ opts) o =
    job_groups-apply_options_to opts (apply_option opt o)
    ∙ ap (λ ws. ws ++ each jobs_of opts) (job_groups-apply_option opt o)
    ∙ append_assoc (dispatchers o.job_groups) (jobs_of opt) (each jobs_of opts)

-- The server of the factories is always complete.
new_server_ssr :
    (w : World) (c : Config) (o : SsrConfig)
    → new_server (some (server_config_of c o)) w.on_disk
      ≡ inr (fresh_server (server_config_of c o) w.on_disk (runtime_of c))
unfolding new_server server_config_of
new_server_ssr w c o = refl

with_loaded_made :
    (w : World) (o : SsrConfig) (l : Loaded) → is_made (with_loaded w o l) ≡ is_loaded l
unfolding new_application
with_loaded_made w o (load_failed e) = refl
with_loaded_made w o (loaded c) = ap (λ s. is_made (with_server w c o s)) (new_server_ssr w c o)

-- NewSSRApp makes an application exactly when there is a configuration: the one of WithConfig, or
-- one that Load returns.
pub new_ssr_app_made :
    (w : World) (name : String) (opts : List AppOption)
    → is_made (new_ssr_app w name opts)
      ≡ is_loaded (config_of w name (apply_options_to opts no_options).cfg)
unfolding new_ssr_app
new_ssr_app_made w name opts =
    let o = apply_options_to opts no_options in with_loaded_made w o (config_of w name o.cfg)

-- The parts of an application that NewSSRApp makes: its configuration, the dispatchers of its jobs
-- in the order of the options, its session manager, and its server, which has the session manager
-- before the routes are mounted and the routes before the init callback runs.
abbrev pub SsrParts : World → String → List AppOption → SsrApp → Type 0
SsrParts w name opts app =
    let o = apply_options_to opts no_options in
    let fresh = fresh_server (server_config_of app.config o) w.on_disk (runtime_of app.config) in
    (config_of w name o.cfg ≡ loaded app.config)
    × (app.workers ≡ each jobs_of opts)
    × (app.session ≡ session_for app.config o.session_path)
    × (app.server ≡ run_hook o.init (run_hook o.routes (attach app.session fresh)))

MadeOf : World → SsrConfig → Config → FactoryError ⊎ SsrApp → Type 0
MadeOf w o c (inl e) = Unit
MadeOf w o c (inr app) =
    (loaded c ≡ loaded app.config)
    × (app.workers ≡ dispatchers o.job_groups)
    × (app.session ≡ session_for app.config o.session_path)
    × (app.server
        ≡ mounted app.config o
            (fresh_server (server_config_of app.config o) w.on_disk (runtime_of app.config)))

with_loaded-MadeOf :
    (w : World) (o : SsrConfig) (c : Config) → MadeOf w o c (with_loaded w o (loaded c))
unfolding new_application MadeOf
with_loaded-MadeOf w o c =
    subst (λ s. MadeOf w o c (with_server w c o s)) (sym (new_server_ssr w c o))
      (refl, refl, refl, refl)

with_loaded-inr :
    (w : World) (o : SsrConfig) (l : Loaded) (app : SsrApp)
    → with_loaded w o l ≡ inr app
    → (l ≡ loaded app.config)
      × (app.workers ≡ dispatchers o.job_groups)
      × (app.session ≡ session_for app.config o.session_path)
      × (app.server
          ≡ mounted app.config o
              (fresh_server (server_config_of app.config o) w.on_disk (runtime_of app.config)))
unfolding MadeOf
with_loaded-inr w o (load_failed e) app h = absurd (ground (arith, h))
with_loaded-inr w o (loaded c) app h = subst (MadeOf w o c) h (with_loaded-MadeOf w o c)

-- An application that NewSSRApp makes has those parts.
pub new_ssr_app-SsrParts :
    (w : World) (name : String) (opts : List AppOption) (app : SsrApp)
    → new_ssr_app w name opts ≡ inr app
    → SsrParts w name opts app
unfolding new_ssr_app mounted dispatchers
new_ssr_app-SsrParts w name opts app h =
    let o = apply_options_to opts no_options in
    let parts = with_loaded-inr w o (config_of w name o.cfg) app h in
    let fresh = fresh_server (server_config_of app.config o) w.on_disk (runtime_of app.config) in
    (
      parts.0,
      parts.1 ∙ job_groups-apply_options_to opts no_options,
      parts.2,
      parts.3 ∙ ap (λ sm. run_hook o.init (run_hook o.routes (attach sm fresh))) (sym parts.2),
    )

abbrev pub has_bytes : List ℕ → Bool
has_bytes [] = false
has_bytes (b ∷ bs) = true

bytes_of_full : (s : String) → (s == "") ≡ false → has_bytes (bytes_of s) ≡ true
unfolding bytes_of
bytes_of_full Str.[] h = absurd (ground (arith, h))
bytes_of_full (Str.◌∷◌ c s) h = ground arith

secret-session_for :
    (c : Config) (path : String) (sm : SessionManager)
    → session_for c path ≡ some sm
    → (sm.secret ≡ bytes_of c.session_secret) × (sm.secure ≡ is_production c)
unfolding session_for new_session_manager
secret-session_for c path sm h = ground (arith, h)

-- Where NewSSRApp loads its configuration itself, the application's session manager never signs
-- with an empty secret, and in production its cookies are only sent over HTTPS.
pub new_ssr_app_session :
    (w : World) (name : String) (opts : List AppOption) (app : SsrApp) (sm : SessionManager)
    → (apply_options_to opts no_options).cfg ≡ none
    → new_ssr_app w name opts ≡ inr app
    → app.session ≡ some sm
    → (has_bytes sm.secret ≡ true) × (sm.secure ≡ is_production app.config)
unfolding config_of
new_ssr_app_session w name opts app sm own h attached =
    let o = apply_options_to opts no_options in
    let parts = new_ssr_app-SsrParts w name opts app h in
    let own_load = sym (ap (config_of w name) own) ∙ parts.0 in
    let ready = load-Ready w.unmarshal w.getenv name app.config own_load in
    let set = secret-session_for app.config o.session_path sm (sym parts.2 ∙ attached) in
    (ap has_bytes set.0 ∙ bytes_of_full app.config.session_secret ready.1, set.1)
