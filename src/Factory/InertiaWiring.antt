-- ===== src/Factory/InertiaWiring.antt =====
-- inertia_factory.go: when NewInertiaApp makes an application, and what its parts are.
use cartridge.Prelude.{
  ℕ, ◌≡◌, refl, ap, sym, subst, ◌∙◌, Bool, true, false, Option, none, some, List, [], ◌∷◌, ◌++◌,
  ◌⊎◌, inl, inr, string_comparable,
}
use cartridge.Config.{Config}
use cartridge.Inertia.Manifest.{Assets}
use cartridge.Server.{Runtime, new_server, fresh_server, validated, built}
use cartridge.Factory.{
  World, Worker, custom, dispatcher, FactoryError, dispatchers, session_for, runtime_of,
  new_application, run_hook, attach, redirecting,
}
use cartridge.Factory.InertiaApp.{
  InertiaConfig, InertiaApp, InertiaOption, GivenConfig, factory_config, plain_config,
  inertia_with_jobs, inertia_with_worker, no_inertia_options, apply_inertia_option,
  apply_inertia_options, new_inertia_app, inertia_with_cfg, inertia_with_server,
  inertia_server_config, inertia_mounted, set_package,
}
use cartridge.Factory.Wiring.{is_made, each, append_assoc, append_nil, dispatchers-append}

-- The dispatchers and workers that an option asks for.
abbrev pub inertia_jobs_of : InertiaOption → List Worker
inertia_jobs_of (inertia_with_jobs interval processors) = dispatcher interval processors ∷ []
inertia_jobs_of _ = []

abbrev pub workers_of : InertiaOption → List Worker
workers_of (inertia_with_worker w) = custom w ∷ []
workers_of _ = []

job_groups-apply_inertia_option :
    (opt : InertiaOption) (o : InertiaConfig)
    → dispatchers (apply_inertia_option opt o).job_groups
      ≡ dispatchers o.job_groups ++ inertia_jobs_of opt
unfolding apply_inertia_option dispatchers
job_groups-apply_inertia_option (inertia_with_jobs interval processors) o =
    dispatchers-append o.job_groups _
job_groups-apply_inertia_option _ o = sym (append_nil _)

job_groups-apply_inertia_options :
    (opts : List InertiaOption) (o : InertiaConfig)
    → dispatchers (apply_inertia_options opts o).job_groups
      ≡ dispatchers o.job_groups ++ each inertia_jobs_of opts
unfolding apply_inertia_options
job_groups-apply_inertia_options [] o = sym (append_nil _)
job_groups-apply_inertia_options (opt ∷ opts) o =
    job_groups-apply_inertia_options opts (apply_inertia_option opt o)
    ∙ ap (λ ws. ws ++ each inertia_jobs_of opts) (job_groups-apply_inertia_option opt o)
    ∙ append_assoc (dispatchers o.job_groups) (inertia_jobs_of opt) (each inertia_jobs_of opts)

workers-apply_inertia_option :
    (opt : InertiaOption) (o : InertiaConfig)
    → (apply_inertia_option opt o).workers ≡ o.workers ++ workers_of opt
unfolding apply_inertia_option
workers-apply_inertia_option (inertia_with_worker w) o = refl
workers-apply_inertia_option _ o = sym (append_nil _)

workers-apply_inertia_options :
    (opts : List InertiaOption) (o : InertiaConfig)
    → (apply_inertia_options opts o).workers ≡ o.workers ++ each workers_of opts
unfolding apply_inertia_options
workers-apply_inertia_options [] o = sym (append_nil _)
workers-apply_inertia_options (opt ∷ opts) o =
    workers-apply_inertia_options opts (apply_inertia_option opt o)
    ∙ ap (λ ws. ws ++ each workers_of opts) (workers-apply_inertia_option opt o)
    ∙ append_assoc o.workers (workers_of opt) (each workers_of opts)

abbrev pub db_or_zero : Option ℕ → Option ℕ
db_or_zero none = some 0
db_or_zero (some m) = some m

validated-db_or_zero :
    (config : Runtime) (m : Option ℕ)
    → validated (some config) (some 0) (elim m [ none ↦ some 0 | some d ↦ some d ]) ≡ inr config
validated-db_or_zero config none = refl
validated-db_or_zero config (some m) = refl

-- The server of the factory is always complete.
new_server_inertia :
    (w : World) (c : Config) (o : InertiaConfig)
    → new_server (some (inertia_server_config c o)) w.on_disk
      ≡ inr (fresh_server (inertia_server_config c o) w.on_disk (runtime_of c))
unfolding new_server inertia_server_config
new_server_inertia w c o =
    ap (built (inertia_server_config c o) w.on_disk)
      (validated-db_or_zero (runtime_of c) o.custom_db_manager)

abbrev pub is_factory_config : Option GivenConfig → Bool
is_factory_config none = false
is_factory_config (some (plain_config c)) = false
is_factory_config (some (factory_config c)) = true

-- What is made of options with the configuration c.
abbrev pub InertiaParts :
    World → Assets → InertiaConfig → Config → FactoryError ⊎ InertiaApp → Type 0
InertiaParts w assets o c (inl e) = ⊥
InertiaParts w assets o c (inr app) =
    (app.workers ≡ o.workers ++ dispatchers o.job_groups)
    × (app.session ≡ session_for c o.session_path)
    × (app.assets ≡ set_package c o assets)
    × (app.server
        ≡ redirecting o.catch_all_redirect (
            run_hook o.routes (
              attach app.session
                (fresh_server (inertia_server_config c o) w.on_disk (runtime_of c)))))

inertia_with_cfg-InertiaParts :
    (w : World) (assets : Assets) (o : InertiaConfig) (c : Config)
    → InertiaParts w assets o c (inertia_with_cfg w assets o (some (factory_config c)))
unfolding new_application inertia_mounted
inertia_with_cfg-InertiaParts w assets o c =
    subst (λ s. InertiaParts w assets o c (inertia_with_server w assets c o s))
      (sym (new_server_inertia w c o)) (refl, refl, refl, refl)

inertia_with_cfg_made :
    (w : World) (assets : Assets) (o : InertiaConfig) (g : Option GivenConfig)
    → is_made (inertia_with_cfg w assets o g) ≡ is_factory_config g
unfolding new_application
inertia_with_cfg_made w assets o none = refl
inertia_with_cfg_made w assets o (some (plain_config c)) = refl
inertia_with_cfg_made w assets o (some (factory_config c)) =
    ap (λ s. is_made (inertia_with_server w assets c o s)) (new_server_inertia w c o)

-- NewInertiaApp makes an application exactly when its last configuration implements FactoryConfig.
pub new_inertia_app_made :
    (w : World) (assets : Assets) (opts : List InertiaOption)
    → is_made (new_inertia_app w assets opts)
      ≡ is_factory_config (apply_inertia_options opts no_inertia_options).cfg
unfolding new_inertia_app
new_inertia_app_made w assets opts =
    let o = apply_inertia_options opts no_inertia_options in inertia_with_cfg_made w assets o o.cfg

-- Given such a configuration, NewInertiaApp makes an application whose workers are those of the
-- options, in their order, and behind them the dispatchers of the options' jobs, in their order; its
-- server has the session manager before the routes are mounted and the redirect after them.
pub new_inertia_app-InertiaParts :
    (w : World) (assets : Assets) (opts : List InertiaOption) (c : Config)
    → (apply_inertia_options opts no_inertia_options).cfg ≡ some (factory_config c)
    → let o = apply_inertia_options opts no_inertia_options in
      InertiaParts w assets o c (new_inertia_app w assets opts)
      × (o.workers ++ dispatchers o.job_groups ≡ each workers_of opts ++ each inertia_jobs_of opts)
unfolding new_inertia_app dispatchers
new_inertia_app-InertiaParts w assets opts c h =
    let o = apply_inertia_options opts no_inertia_options in
    (
      subst (λ g. InertiaParts w assets o c (inertia_with_cfg w assets o g)) (sym h)
          (inertia_with_cfg-InertiaParts w assets o c),
      ap (λ ws. ws ++ dispatchers o.job_groups)
            (workers-apply_inertia_options opts no_inertia_options)
          ∙ ap (λ ws. each workers_of opts ++ ws)
              (job_groups-apply_inertia_options opts no_inertia_options),
    )
